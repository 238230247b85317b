-- ===== src/Metadata/Multipart/Claims.antt =====
-- The claim on an upload: one request takes it, and until it is released no part is added.
use fbs_core.Base.{
  Bool, true, false, Bytes, List, [], ◌∷◌, Option, none, some, str_eq, str_eq_iff, str_eq_refl,
  if◌then◌else◌, ok, ◌≡◌, ◌≢◌, refl, sym, ap, ◌∙◌, arith, false_of_not, checked-ok,
}
use fbs_core.Metadata.Model.{
  Time, MultipartUploadStatus, active, completing, aborted, unknown, MultipartUpload, Tables,
  invalid_status,
}
use fbs_core.Metadata.Objects.{guarded}
use fbs_core.Metadata.Multipart.{
  is_active, is_completing, find_upload, set_status, required, claim_upload,
}

abbrev pub restamped :
    Bool → MultipartUploadStatus → Time → Option MultipartUpload → Option MultipartUpload
restamped hit status now none = none
restamped hit status now (some u) =
    if hit then some (record u { status = status; status_updated_at = now }) else some u

pub find-set_status :
    (id other : Bytes) (status : MultipartUploadStatus) (now : Time) (l : List MultipartUpload)
    → find_upload other (set_status id status now l)
      ≡ restamped (str_eq other id) status now (find_upload other l)
unfolding find_upload set_status
find-set_status id other status now [] = refl
find-set_status id other status now (u ∷ l) = ground (
  arith,
  find-set_status id other status now l,
  str_eq_iff u.id id,
  str_eq_iff u.id other,
  str_eq_iff other id,
)

pub guarded-ok {ℓ} :
    {E A : Type ℓ} (x : Option E) (a b : A) → guarded x a ≡ ok b → (x ≡ none) × (a ≡ b)
guarded-ok none a b h = (refl, ground arith)
guarded-ok (some e) a b h = cc

-- The status that a row has, if it is there.
abbrev pub status_of : Option MultipartUpload → Option MultipartUploadStatus
status_of none = none
status_of (some u) = some u.status

abbrev pub status_at : Tables → Bytes → Option MultipartUploadStatus
status_at t id = status_of (find_upload id t.uploads)

is_active-eq : (s : MultipartUploadStatus) → is_active s ≡ true → s ≡ active
is_active-eq active h = refl
is_active-eq completing h = cc
is_active-eq aborted h = cc
is_active-eq (unknown s) h = cc

is_completing-eq : (s : MultipartUploadStatus) → is_completing s ≡ true → s ≡ completing
is_completing-eq active h = cc
is_completing-eq completing h = refl
is_completing-eq aborted h = cc
is_completing-eq (unknown s) h = cc

pub required-active :
    (row : Option MultipartUpload) → required is_active row ≡ none → status_of row ≡ some active
required-active none h = cc
required-active (some u) h = ap some (is_active-eq u.status (ground arith))

pub required-completing :
    (row : Option MultipartUpload)
    → required is_completing row ≡ none
    → status_of row ≡ some completing
required-completing none h = cc
required-completing (some u) h = ap some (is_completing-eq u.status (ground arith))

restamped-status :
    (row : Option MultipartUpload) (status s : MultipartUploadStatus) (now : Time)
    → status_of row ≡ some s
    → status_of (restamped true status now row) ≡ some status
restamped-status none status s now h = cc
restamped-status (some u) status s now h = refl

restamped-other :
    (row : Option MultipartUpload) (status : MultipartUploadStatus) (now : Time)
    → restamped false status now row ≡ row
restamped-other none status now = refl
restamped-other (some u) status now = refl

module _ (t t' : Tables) (now : Time) (id : Bytes) (status : MultipartUploadStatus) where
  -- A claim that succeeds found the upload active, gives it the claim's status, which is not
  -- `active`, and leaves every other upload alone.
  pub claim_upload-ok :
      claim_upload t now id status ≡ ok t'
      → (status_at t id ≡ some active)
        × (status_at t' id ≡ some status)
        × (is_active status ≡ false)
        × ((other : Bytes)
            → other ≢ id
            → find_upload other t'.uploads ≡ find_upload other t.uploads)
        × (t'.parts ≡ t.parts)
  unfolding claim_upload
  claim_upload-ok h =
      let (valid, rest) = checked-ok _ invalid_status _ h in
      let (free, result) = guarded-ok _ _ t' rest in
      let was = required-active (find_upload id t.uploads) free in
      let rows : t'.uploads ≡ set_status id status now t.uploads =
        ap (λ (x : Tables). x.uploads) (sym result) in
      (
        was,
        ap (λ (l : List MultipartUpload). status_of (find_upload id l)) rows
            ∙ ap status_of (find-set_status id id status now t.uploads)
            ∙ ap (λ (b : Bool). status_of (restamped b status now (find_upload id t.uploads)))
                (str_eq_refl id)
            ∙ restamped-status (find_upload id t.uploads) status active now was,
        ground arith,
        λ other differs.
            ap (find_upload other) rows
            ∙ find-set_status id other status now t.uploads
            ∙ ap (λ (b : Bool). restamped b status now (find_upload other t.uploads))
                (false_of_not (str_eq other id) (λ e. differs ((str_eq_iff other id).0 e)))
            ∙ restamped-other (find_upload other t.uploads) status now,
        ap (λ (x : Tables). x.parts) (sym result),
      )
