-- ===== src/S3/BucketName/Tests.antt =====
-- Concrete bucket names.
use fbs_core.Base.{
  true, false, [], ◌∷◌, codes, str_eq, contains, has_prefix, split, to_lower, lower_byte, ◌≡◌, refl,
}
use fbs_core.Storage.Paths.{is_abs, clean_segments}
use fbs_core.S3.BucketName.{
  validate_bucket_name, name_chars, is_ip, is_octet, octet_value, digits, is_bucket_label_char,
}
use fbs_core.S3.BucketName.Plain.{valid-clean_segments}

plain_valid : validate_bucket_name (codes "my-bucket.1") ≡ true
unfolding validate_bucket_name str_eq to_lower lower_byte is_ip is_octet octet_value digits split
    name_chars is_bucket_label_char contains has_prefix
plain_valid = refl

address_refused : validate_bucket_name (codes "10.0.0.1") ≡ false
unfolding validate_bucket_name str_eq to_lower lower_byte is_ip is_octet octet_value digits split
    name_chars is_bucket_label_char contains has_prefix
address_refused = refl

upper_refused : validate_bucket_name (codes "Bucket") ≡ false
unfolding validate_bucket_name str_eq to_lower lower_byte
upper_refused = refl

dots_refused : validate_bucket_name (codes "a..b") ≡ false
unfolding validate_bucket_name str_eq to_lower lower_byte is_ip is_octet octet_value digits split
    name_chars is_bucket_label_char contains has_prefix
dots_refused = refl

valid-clean_segments_example :
    (is_abs (codes "my-bucket.1") ≡ false)
    × (clean_segments (codes "my-bucket.1") ≡ codes "my-bucket.1" ∷ [])
valid-clean_segments_example = valid-clean_segments (codes "my-bucket.1") plain_valid
