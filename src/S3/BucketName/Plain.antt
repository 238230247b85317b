-- ===== src/S3/BucketName/Plain.antt =====
-- A valid bucket name is one plain element of a path.
use fbs_core.Base.{
  ℕ, ◌≤◌, ◌==◌, true, false, Bytes, [], ◌∷◌, codes, length, str_eq, str_eq_iff, has_prefix, split,
  ◌≡◌, refl, ap, arith, false_of_not,
}
use fbs_core.Storage.Paths.{is_abs, clean_step, clean_from, clean_segments, dot_dot}
use fbs_core.S3.BucketName.{is_bucket_label_char, is_name_char, name_chars, validate_bucket_name}

name_char_not_slash : (c : ℕ) → is_name_char c ≡ true → (c == b'/') ≡ false
unfolding is_bucket_label_char
name_char_not_slash c h = ground arith

split_name : (s : Bytes) → name_chars s ≡ true → split b'/' s ≡ s ∷ []
unfolding split name_chars
split_name [] h = refl
split_name (c ∷ s) h = rw (name_char_not_slash c (ground arith), split_name s (ground arith)) refl

relative_name : (s : Bytes) → name_chars s ≡ true → is_abs s ≡ false
unfolding is_abs has_prefix name_chars
relative_name [] h = refl
relative_name (c ∷ s) h = ground (arith, name_char_not_slash c (ground arith))

module _ (name : Bytes) (valid : validate_bucket_name name ≡ true) where
  valid-name_chars : name_chars name ≡ true
  unfolding validate_bucket_name
  valid-name_chars = ground arith

  valid_length : 3 ≤ length name
  unfolding validate_bucket_name
  valid_length = ground arith

  not_short : (s : Bytes) → length s ≤ 2 → str_eq name s ≡ false
  not_short s short =
      false_of_not (str_eq name s)
        (λ e. ground (arith, valid_length, ap length ((str_eq_iff name s).0 e)))

  -- A valid bucket name, taken as a path, is relative and is a single element, neither `.` nor `..`:
  -- cleaning leaves it as it is.
  pub valid-clean_segments : (is_abs name ≡ false) × (clean_segments name ≡ name ∷ [])
  unfolding clean_segments clean_from clean_step
  valid-clean_segments =
      let relative = relative_name name valid-name_chars in
      (
        relative,
        rw (relative, split_name name valid-name_chars)
            (rw
              (
                not_short [] (ground arith),
                not_short (codes ".") (ground arith),
                not_short dot_dot (ground arith),
              )
              refl),
      )
