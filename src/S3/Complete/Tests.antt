-- ===== src/S3/Complete/Tests.antt =====
-- The parts of concrete requests.
use fbs_core.Base.{ℕ, ℤ, pos, Bytes, [], ◌∷◌, List, codes, equal_fold, ok, err, ◌≡◌, ◌↔◌, refl}
use fbs_core.Metadata.Model.{MultipartPart}
use fbs_core.Metadata.Objects.{etags_equal, unquote_etag}
use fbs_core.S3.Complete.{
  CompletePart, part_order, part_too_small, put_unique, put_all, ascends, ascends_from,
  normalize_completed_parts, etag_matches, by_number, match_stored_parts,
}
use fbs_core.S3.Complete.Order.{StrictlyAscending, first_of, last_of, normalize-ok}
use fbs_core.S3.Complete.Match.{Matched, match_iff}

abbrev named : ℕ → Bytes → CompletePart
named n tag = record { part_number = pos n; etag = tag }

abbrev repeated : List CompletePart
repeated = named 1 (codes "aa") ∷ named 2 (codes "bb") ∷ named 1 (codes "cc") ∷ []

abbrev kept : List CompletePart
kept = named 1 (codes "cc") ∷ named 2 (codes "bb") ∷ []

abbrev stored_part : ℕ → ℕ → Bytes → MultipartPart
stored_part n bytes tag = record {
  upload_id = codes "u1";
  part_number = n;
  size = bytes;
  etag = tag;
  storage_path = [];
  created_at = 1;
  checksum_crc32 = [];
  checksum_crc32c = [];
  checksum_crc64nvme = [];
  checksum_sha1 = [];
  checksum_sha256 = [];
}

abbrev stored : List MultipartPart
stored = stored_part 1 8 (codes "cc") ∷ stored_part 2 3 (codes "bb") ∷ []

last_one_wins : normalize_completed_parts repeated ≡ ok kept
unfolding normalize_completed_parts put_all put_unique ascends ascends_from
last_one_wins = refl

descending : normalize_completed_parts (named 2 [] ∷ named 1 [] ∷ []) ≡ err part_order
unfolding normalize_completed_parts put_all put_unique ascends ascends_from
descending = refl

kept_matched : match_stored_parts kept stored 5 ≡ ok stored
unfolding match_stored_parts by_number etag_matches etags_equal unquote_etag equal_fold
kept_matched = refl

first_too_small : match_stored_parts kept stored 9 ≡ err part_too_small
unfolding match_stored_parts by_number etag_matches etags_equal unquote_etag equal_fold
first_too_small = refl

normalize-ok_example : StrictlyAscending kept × ((n : ℤ) → first_of n kept ≡ last_of n repeated)
normalize-ok_example = normalize-ok repeated kept last_one_wins

match_iff_example : (match_stored_parts kept stored 5 ≡ ok stored) ↔ Matched stored 5 kept stored
match_iff_example = match_iff stored 5 kept stored
