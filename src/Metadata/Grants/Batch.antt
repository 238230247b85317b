-- ===== src/Metadata/Grants/Batch.antt =====
-- A batch of grants that is stored a second time.
use fbs_core.Base.{
  Bool, true, false, not, ◌&&◌, List, [], ◌∷◌, ◌++◌, map, append_assoc, append-nil, none, some,
  str_eq_refl, if◌then◌else◌, ok, err, >>=-ok, checked-ok, All, ◌≡◌, refl, ap, sym, ◌∙◌, arith,
  Bool-cases, Option-cases, inl, inr,
}
use fbs_core.Metadata.Grants.{
  GrantRow, GrantCreateResult, grant_constraint, same_grant, find_active_duplicate,
  indexed_duplicate, all_valid, admissible, insert_unless_duplicate, batch_result, insert_all,
  create_idempotent_batch,
}

same_grant_refl : (g : GrantRow) → same_grant g g ≡ true
same_grant_refl g =
    rw
      (
        str_eq_refl g.bucket_name,
        str_eq_refl g.grantee_user_id,
        str_eq_refl g.action,
        str_eq_refl g.key_prefix,
      )
      refl

duplicate-append :
    (g x : GrantRow) (l extra : List GrantRow)
    → find_active_duplicate g l ≡ some x
    → find_active_duplicate g (l ++ extra) ≡ some x
unfolding find_active_duplicate
duplicate-append g x [] extra h = cc
duplicate-append g x (y ∷ l) extra h = elim (Bool-cases (same_grant g y && y.is_active)) [
  | inl e ↦ rw e (ground (arith, e, h))
  | inr e ↦ rw e (duplicate-append g x l extra (ground (arith, e, h)))
]

duplicate-own :
    (g : GrantRow) (l : List GrantRow)
    → g.is_active ≡ true
    → find_active_duplicate g l ≡ none
    → find_active_duplicate g (l ++ (g ∷ [])) ≡ some g
unfolding find_active_duplicate
duplicate-own g [] live h = rw (same_grant_refl g, live) refl
duplicate-own g (y ∷ l) live h = elim (Bool-cases (same_grant g y && y.is_active)) [
  | inl e ↦ cc (rw e at h)
  | inr e ↦ rw e (duplicate-own g l live (ground (arith, e, h)))
]

abbrev pub AllActive : List GrantRow → Type 0
AllActive l = All (λ g. g.is_active ≡ true) l

-- The same result, of a grant that was there.
abbrev pub seen : GrantCreateResult → GrantCreateResult
seen r = record { grant = r.grant; existed = true }

pub indexed_live :
    (g : GrantRow) (l : List GrantRow)
    → g.is_active ≡ true
    → indexed_duplicate g l ≡ find_active_duplicate g l
unfolding indexed_duplicate
indexed_live g l live = ground (arith, live)

module _ (known : GrantRow → Bool) where
  -- What one round does: the table grows at its end, and the result is the row of the grant in it.
  round-ok :
      (g : GrantRow) (l : List GrantRow) (inserted : Bool) (after : List GrantRow)
      (r : GrantCreateResult)
      → g.is_active ≡ true
      → insert_unless_duplicate known g l ≡ ok (inserted, after)
      → batch_result known g (inserted, after) ≡ ok r
      → ((extra : List GrantRow) × (after ≡ l ++ extra))
        × (find_active_duplicate g after ≡ some r.grant)
  round-ok g l inserted after r live h k = elim (Option-cases (find_active_duplicate g l)) [
    | inr (x, found) ↦
        let step : ok (false, l) ≡ ok (inserted, after) = rw (indexed_live g l live, found) at h in
        let none_new : inserted ≡ false = ground (arith, step) in
        let same : after ≡ l = ground (arith, step) in
        let here : find_active_duplicate g after ≡ some x = rw same found in
        let result : ok (record { grant = x; existed = true }) ≡ ok r = rw (none_new, here) at k in
        (([], same ∙ sym (append-nil l)), ground (arith, here, result))
    | inl free ↦
        let checked : (if not (admissible known g l)
              then err grant_constraint
              else ok (true, l ++ (g ∷ [])))
            ≡ ok (inserted, after) =
          rw (indexed_live g l live, free) at h in
        let (_, step) =
          checked-ok (not (admissible known g l)) grant_constraint (ok (true, l ++ (g ∷ [])))
            checked in
        let new : inserted ≡ true = ground (arith, step) in
        let same : after ≡ l ++ (g ∷ []) = ground (arith, step) in
        let result : ok (record { grant = g; existed = false }) ≡ ok r = rw new at k in
        let mine : g ≡ r.grant = ground (arith, result) in
        ((g ∷ [], same), rw (same, ← mine) (duplicate-own g l live free))
  ]

  insert_all-grows :
      (grants l : List GrantRow) (rs : List GrantCreateResult) (after : List GrantRow)
      → AllActive grants
      → insert_all known grants l ≡ ok (rs, after)
      → (extra : List GrantRow) × (after ≡ l ++ extra)
  unfolding insert_all
  insert_all-grows [] l rs after live h = ([], ground (arith, h, append-nil l))
  insert_all-grows (g ∷ grants) l rs after (here, live) h =
      let ((inserted, mid), first, h) = >>=-ok (insert_unless_duplicate known g l) _ h in
      let (r, second, h) = >>=-ok (batch_result known g (inserted, mid)) _ h in
      let ((rest, last), third, h) = >>=-ok (insert_all known grants mid) _ h in
      let ((extra, grown), _) = round-ok g l inserted mid r here first second in
      let (more, grown_more) = insert_all-grows grants mid rest last live third in
      let same : last ≡ after = ground (arith, h) in
      (
        extra ++ more,
        sym same
            ∙ grown_more
            ∙ ap (λ (x : List GrantRow). x ++ more) grown
            ∙ append_assoc l extra more,
      )

  -- A grant that is in the table is found again, and nothing is inserted.
  insert_all-again :
      (grants l : List GrantRow) (rs : List GrantCreateResult) (after : List GrantRow)
      → AllActive grants
      → insert_all known grants l ≡ ok (rs, after)
      → insert_all known grants after ≡ ok (map seen rs, after)
  unfolding insert_all
  insert_all-again [] l rs after live h =
      let empty : [] ≡ rs = ground (arith, h) in rw (← empty) refl
  insert_all-again (g ∷ grants) l rs after (here, live) h =
      let ((inserted, mid), first, h) = >>=-ok (insert_unless_duplicate known g l) _ h in
      let (r, second, h) = >>=-ok (batch_result known g (inserted, mid)) _ h in
      let ((rest, last), third, h) = >>=-ok (insert_all known grants mid) _ h in
      let (_, found) = round-ok g l inserted mid r here first second in
      let (more, grown) = insert_all-grows grants mid rest last live third in
      let same : last ≡ after = ground (arith, h) in
      let results : r ∷ rest ≡ rs = ground (arith, h) in
      let there : find_active_duplicate g after ≡ some r.grant =
        rw (← same, grown) (duplicate-append g r.grant mid more found) in
      let again : insert_all known grants after ≡ ok (map seen rest, after) =
        rw (← same) (insert_all-again grants mid rest last live third) in
      rw (indexed_live g after here, there, there, again, ← results) refl

  -- A batch of active grants that was stored, sent again, changes nothing: each grant is reported as
  -- there, with the row that was reported the first time.
  pub create_idempotent_batch-twice :
      (grants l : List GrantRow) (rs : List GrantCreateResult) (after : List GrantRow)
      → AllActive grants
      → create_idempotent_batch known grants l ≡ ok (rs, after)
      → create_idempotent_batch known grants after ≡ ok (map seen rs, after)
  unfolding create_idempotent_batch
  create_idempotent_batch-twice grants l rs after live h =
      let (_, valid, stored) = >>=-ok (all_valid grants) _ h in
      rw valid (insert_all-again grants l rs after live stored)
