-- ===== src/Metadata/Grants/Tests.antt =====
-- A batch that grants the same twice, and a grant that is taken back.
use fbs_core.Base.{
  some, select, not, is_blank, trim_space, if◌then◌else◌, Bool, true, false, Bytes, List, [], ◌∷◌,
  map, codes, str_eq, ok, ◌≡◌, refl,
}
use fbs_core.Iam.{action_get_object, is_grantable}
use fbs_core.Metadata.Grants.{
  GrantRow, GrantCreateResult, find_active_duplicate, indexed_duplicate, find_grant, insert_all,
  create_idempotent_batch, update, set_row, without_id, list_active_for_grantee_bucket,
}
use fbs_core.Metadata.Grants.Batch.{seen, create_idempotent_batch-twice}
use fbs_core.Metadata.Grants.Active.{unique_ids}
use fbs_core.Metadata.Grants.Revoked.{by_update, update-ok, list_active-Revokes}

abbrev grant : Bytes → Bytes → GrantRow
grant id prefix = record {
  id = id;
  bucket_name = codes "b";
  grantee_user_id = codes "u1";
  action = action_get_object;
  key_prefix = prefix;
  is_active = true;
  created_by = [];
  note = [];
  created_at = 1;
  updated_at = 1;
}

abbrev anyone : GrantRow → Bool
anyone g = true

abbrev batch : List GrantRow
batch = grant (codes "g1") [] ∷ grant (codes "g2") (codes "a/") ∷ grant (codes "g3") [] ∷ []

abbrev stored : List GrantRow
stored = grant (codes "g1") [] ∷ grant (codes "g2") (codes "a/") ∷ []

abbrev results : List GrantCreateResult
results =
    record { grant = grant (codes "g1") []; existed = false }
    ∷ record { grant = grant (codes "g2") (codes "a/"); existed = false }
    ∷ record { grant = grant (codes "g1") []; existed = true }
    ∷ []

batch_stored : create_idempotent_batch anyone batch [] ≡ ok (results, stored)
unfolding create_idempotent_batch insert_all find_active_duplicate indexed_duplicate find_grant
    is_grantable str_eq
batch_stored = refl

create_idempotent_batch-twice_example :
    create_idempotent_batch anyone batch stored ≡ ok (map seen results, stored)
create_idempotent_batch-twice_example =
    create_idempotent_batch-twice anyone batch [] results stored (refl, (refl, (refl, tt)))
      batch_stored

abbrev switched_off : GrantRow
switched_off = record (grant (codes "g2") (codes "c/")) { is_active = false; note = codes "done" }

abbrev left : List GrantRow
left = grant (codes "g1") [] ∷ record switched_off { updated_at = 9 } ∷ []

grant_updated : update 9 switched_off stored ≡ ok left
unfolding update find_grant set_row find_active_duplicate indexed_duplicate is_blank trim_space
    is_grantable str_eq without_id
grant_updated = refl

ids_differ : unique_ids stored ≡ true
unfolding find_grant str_eq
ids_differ = refl

update-ok_example :
    (x : GrantRow) × (find_grant (codes "g2") stored ≡ some x)
    × (is_blank (codes "g2") ≡ false)
    × (false ≡ true → is_grantable action_get_object ≡ true)
    × ((id : Bytes)
        → find_grant id left ≡ (
            if str_eq id (codes "g2")
            then some (record {
              id = x.id;
              bucket_name = x.bucket_name;
              grantee_user_id = x.grantee_user_id;
              action = x.action;
              key_prefix = codes "c/";
              is_active = false;
              created_by = x.created_by;
              note = codes "done";
              created_at = x.created_at;
              updated_at = 9;
            })
            else find_grant id stored))
update-ok_example = update-ok 9 switched_off stored left grant_updated

list_active-Revokes_example :
    list_active_for_grantee_bucket (codes "u1") (codes "b") left
    ≡ select
        (λ g. not (str_eq g.id (codes "g2")))
        (list_active_for_grantee_bucket (codes "u1") (codes "b") stored)
list_active-Revokes_example =
    list_active-Revokes (codes "g2") stored left ids_differ
      (by_update 9 switched_off refl refl grant_updated) (codes "u1") (codes "b")
