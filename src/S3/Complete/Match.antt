-- ===== src/S3/Complete/Match.antt =====
-- matchStoredParts: the stored parts that a completed upload is made of.
use fbs_core.Base.{
  ℕ, Bool, true, false, not, ◌&&◌, Bytes, List, [], ◌∷◌, Option, none, some, ltb, ◌≤◌,
  if◌then◌else◌, Result, ok, ◌>>=◌, >>=-ok, ◌≡◌, refl, ap, arith, checked-ok, ◌↔◌,
}
use fbs_core.Metadata.Model.{MultipartPart}
use fbs_core.S3.Complete.{
  CompletePart, CompleteError, part_too_small, add_matched, etag_matches, by_number, matched_etag,
  is_last, match_stored_parts,
}

-- The parts matched: one for each part named, in that order, stored last under its number, with an
-- ETag that matches, and all but the last large enough.
pub data Matched (stored : List MultipartPart) (min_part_size : ℕ)
    : List CompletePart → List MultipartPart → Type 0 where
  none_left : Matched stored min_part_size [] []
  matches :
      (want : CompletePart) (part : MultipartPart) (rest : List CompletePart)
      (parts : List MultipartPart)
      → by_number want.part_number stored ≡ some part
      → etag_matches want.etag part.etag ≡ true
      → (is_last rest ≡ false → min_part_size ≤ part.size)
      → Matched stored min_part_size rest parts
      → Matched stored min_part_size (want ∷ rest) (part ∷ parts)

kept_if {ℓ} :
    {A : Type ℓ} (b : Bool) (p q : A) → (if b then some p else none) ≡ some q → (b ≡ true) × (p ≡ q)
kept_if true p q h = (refl, ground arith)
kept_if false p q h = cc

matched_etag-some :
    (etag : Bytes) (row : Option MultipartPart) (part : MultipartPart)
    → matched_etag etag row ≡ some part
    → (row ≡ some part) × (etag_matches etag part.etag ≡ true)
matched_etag-some etag none part h = cc
matched_etag-some etag (some p) part h =
    let (e, same) = kept_if (etag_matches etag p.etag) p part h in (ap some same, rw (← same) e)

add_matched-ok :
    (m : ℕ) (rest : List CompletePart) (others : Result CompleteError (List MultipartPart))
    (row : Option MultipartPart) (parts : List MultipartPart)
    → add_matched m rest others row ≡ ok parts
    → (part : MultipartPart) × (tail : List MultipartPart) × (row ≡ some part)
      × (is_last rest ≡ false → m ≤ part.size)
      × (others ≡ ok tail)
      × (part ∷ tail ≡ parts)
add_matched-ok m rest others none parts h = cc
add_matched-ok m rest others (some part) parts h =
    let (large, step) =
      checked-ok (not (is_last rest) && ltb part.size m) part_too_small
        (others >>= (λ (l : List MultipartPart). ok (part ∷ l))) h in
    let (tail, found, same) = >>=-ok others _ step in
    (part, tail, refl, λ inner. ground (arith, large, inner), found, ground arith)

enough : (last : Bool) (size m : ℕ) → (last ≡ false → m ≤ size) → (not last && ltb size m) ≡ false
enough true size m h = refl
enough false size m h = ground (arith, h refl)

module _ (stored : List MultipartPart) (m : ℕ) where
  match-Matched :
      (requested : List CompletePart) (parts : List MultipartPart)
      → match_stored_parts requested stored m ≡ ok parts
      → Matched stored m requested parts
  unfolding match_stored_parts
  match-Matched [] [] h = none_left
  match-Matched [] (x ∷ parts) h = cc
  match-Matched (want ∷ rest) parts h =
      let (part, tail, row, large, others, same) =
        add_matched-ok m rest (match_stored_parts rest stored m)
          (matched_etag want.etag (by_number want.part_number stored)) parts h in
      let (found, tag) = matched_etag-some want.etag (by_number want.part_number stored) part row in
      rw (← same) (matches want part rest tail found tag large (match-Matched rest tail others))

  Matched-match :
      (requested : List CompletePart) (parts : List MultipartPart)
      → Matched stored m requested parts
      → match_stored_parts requested stored m ≡ ok parts
  unfolding match_stored_parts
  Matched-match _ _ none_left = refl
  Matched-match _ _ (matches want part rest parts found tag large others) =
      rw (found, tag, Matched-match rest parts others)
        (ground (arith, large, enough (is_last rest) part.size m large))

  -- The parts that a request is matched with are those, and only those, that `Matched` describes.
  pub match_iff :
      (requested : List CompletePart) (parts : List MultipartPart)
      → (match_stored_parts requested stored m ≡ ok parts) ↔ Matched stored m requested parts
  match_iff requested parts = (match-Matched requested parts, Matched-match requested parts)
