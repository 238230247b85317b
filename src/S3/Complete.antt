-- ===== src/S3/Complete.antt =====
-- internal/s3/multipart_complete.go: the parts that a request to complete an upload names. A slice
-- with the map of its positions is the list of its entries.
pub mod Order
pub mod Match
mod Tests
use fbs_core.Base.{
  ℕ, ℤ, pos, int_eq, int_ltb, Bool, true, false, not, ◌&&◌, ◌||◌, Bytes, List, [], ◌∷◌, Option,
  none, some, length, ltb, ◌==◌, if◌then◌else◌, Result, ok, err, ◌>>=◌,
}
use fbs_core.Metadata.Model.{MultipartPart}
use fbs_core.Metadata.Objects.{etags_equal}

pub record CompletePart : Type 0 where
  pub part_number : ℤ
  pub etag : Bytes

pub data CompleteError : Type 0 where
  no_completed_parts part_order unknown_part part_too_small : CompleteError

-- One round of the loop: the entry of the part's number is replaced where it stands.
unfoldable pub put_unique : CompletePart → List CompletePart → List CompletePart
put_unique part [] = part ∷ []
put_unique part (x ∷ rest) =
    let after = put_unique part rest in
    if int_eq x.part_number part.part_number then part ∷ rest else x ∷ after

unfoldable pub put_all : List CompletePart → List CompletePart → List CompletePart
unfolding put_unique
put_all unique [] = unique
put_all unique (part ∷ parts) = put_all (put_unique part unique) parts

-- The second loop, with the number before.
unfoldable pub ascends_from : ℤ → List CompletePart → Bool
ascends_from before [] = true
ascends_from before (x ∷ rest) =
    let after = ascends_from x.part_number rest in
    if int_ltb x.part_number before then false else after

unfoldable pub ascends : List CompletePart → Bool
unfolding ascends_from
ascends [] = true
ascends (x ∷ rest) = ascends_from x.part_number rest

unfoldable pub normalize_completed_parts :
    List CompletePart → Result CompleteError (List CompletePart)
unfolding put_all ascends
normalize_completed_parts [] = err no_completed_parts
normalize_completed_parts (p ∷ parts) =
    let unique = put_all [] (p ∷ parts) in if ascends unique then ok unique else err part_order

unfoldable pub etag_matches : Bytes → Bytes → Bool
etag_matches request_etag stored_etag = etags_equal request_etag stored_etag

-- `byNumber[n]`: the last stored part of the number.
unfoldable pub by_number : ℤ → List MultipartPart → Option MultipartPart
by_number n [] = none
by_number n (p ∷ rest) = elim (by_number n rest) [
  | some q ↦ some q
  | none ↦ if int_eq (pos p.part_number) n then some p else none
]

abbrev pub matched_etag : Bytes → Option MultipartPart → Option MultipartPart
matched_etag etag none = none
matched_etag etag (some p) = if etag_matches etag p.etag then some p else none

abbrev pub is_last : List CompletePart → Bool
is_last [] = true
is_last (x ∷ rest) = false

-- One round of the loop, `rest` being the parts named after this one and `others` what they give.
abbrev pub add_matched :
    ℕ
    → List CompletePart
    → Result CompleteError (List MultipartPart)
    → Option MultipartPart
    → Result CompleteError (List MultipartPart)
add_matched min_part_size rest others none = err unknown_part
add_matched min_part_size rest others (some part) =
    if not (is_last rest) && ltb part.size min_part_size
    then err part_too_small
    else (others >>= (λ matched. ok (part ∷ matched)))

unfoldable pub match_stored_parts :
    List CompletePart → List MultipartPart → ℕ → Result CompleteError (List MultipartPart)
unfolding by_number
match_stored_parts [] stored min_part_size = ok []
match_stored_parts (want ∷ rest) stored min_part_size =
    add_matched min_part_size rest (match_stored_parts rest stored min_part_size)
      (matched_etag want.etag (by_number want.part_number stored))
