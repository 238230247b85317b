-- ===== src/Storage/Within.antt =====
-- Where the paths that the engine accepts lead.
use fbs_core.Base.{
  ◌≤◌, true, false, not, Bytes, List, [], ◌∷◌, ◌++◌, codes, length, str_eq, str_eq_iff, has_prefix,
  split, All, trim_space, if◌then◌else◌, Result, ok, err, ◌≡◌, ◌≢◌, ◌⊎◌, inl, inr, refl, sym, arith,
  Option, none, some,
}
use fbs_core.Storage.Paths.{
  dot_dot, is_abs, clean_segments, clean, join_paths, abs, rel_segments, rel,
}
use fbs_core.Storage.Sanitize.{
  Error, path_traversal, unless, normalized, has_segment, contains_traversal_segment, validate_key,
  storage_path, is_within_base, resolve_key_path, resolve_storage_path,
}
use fbs_core.Storage.Segments.{
  NoClimb, clean_segments-NoClimb, abs-is_abs, rel_segments-cases, climbs,
}

-- The elements of a path, absolute and cleaned.
abbrev pub elements : Bytes → Bytes → List Bytes
elements cwd path = clean_segments (abs cwd path)

-- A path is below a directory when its elements are those of the directory and further ones, none
-- of them `..`.
abbrev pub Below : Bytes → Bytes → Bytes → Type 0
Below cwd dir path =
    ((rest : List Bytes) × (elements cwd path ≡ elements cwd dir ++ rest))
    × NoClimb (elements cwd path)

module _ (cwd : Bytes) (rooted : is_abs cwd ≡ true) where
  rel_climbs :
      (base target : Bytes) (tail : List Bytes)
      → rel_segments (clean_segments base) (clean_segments target) ≡ dot_dot ∷ tail
      → (str_eq (rel base target) dot_dot ≡ true)
        ⊎ (has_prefix (rel base target) (codes "../") ≡ true)
  unfolding rel
  rel_climbs base target tail h = rw h (climbs tail)

  is_within_base-Below :
      (base target : Bytes) → is_within_base cwd base target ≡ true → Below cwd base target
  unfolding is_within_base
  is_within_base-Below base target h =
      elim (rel_segments-cases (elements cwd base) (elements cwd target)) [
        | inl down ↦ (down, clean_segments-NoClimb (abs cwd target) (abs-is_abs cwd target rooted))
        | inr (tail, up) ↦ elim (rel_climbs (abs cwd base) (abs cwd target) tail up) [
          | inl e ↦ absurd (ground (arith, e))
          | inr e ↦ absurd (ground (arith, e))
        ]
      ]

has_segment-All :
    (name : Bytes) (l : List Bytes) → has_segment name l ≡ false → All (λ s. s ≢ name) l
unfolding has_segment
has_segment-All name [] h = tt
has_segment-All name (s ∷ l) h =
    (λ e. ground (arith, e, str_eq_iff s name), has_segment-All name l (ground arith))

-- What is required of a key, whichever slash it is written with.
pub record IsKey (key : Bytes) : Type 0 where
  pub named : key ≢ []
  pub bounded : length key ≤ 1024
  pub relative : has_prefix key (codes "/") ≡ false
  pub flat : NoClimb (split b'/' (normalized key))

not_traversal : (key : Bytes) → validate_key key ≡ none → contains_traversal_segment key ≡ false
unfolding validate_key
not_traversal key h = ground arith

not_traversal-NoClimb :
    (key : Bytes) → contains_traversal_segment key ≡ false → NoClimb (split b'/' (normalized key))
unfolding contains_traversal_segment
not_traversal-NoClimb key h = has_segment-All dot_dot (split b'/' (normalized key)) h

unless-ok :
    {A : Type 0} (x : Option Error) (r : Result Error A) (b : A)
    → unless x r ≡ ok b
    → (x ≡ none) × (r ≡ ok b)
unless-ok none r b h = (refl, h)
unless-ok (some e) r b h = cc

validate_key-IsKey : (key : Bytes) → validate_key key ≡ none → IsKey key
unfolding validate_key
validate_key-IsKey key h = record {
  named = λ e. ground (arith, e, str_eq_iff key []);
  bounded = ground arith;
  relative = ground arith;
  flat = not_traversal-NoClimb key (not_traversal key h);
}

module _ (cwd : Bytes) (rooted : is_abs cwd ≡ true) (dir : Bytes) where
  -- A path that the engine derives from a bucket and a key, and a path of a stored file that it
  -- resolves, lead below the data directory, by a way that does not climb.
  pub resolve_key_path-ok :
      (bucket key path full : Bytes)
      → resolve_key_path cwd dir bucket key ≡ ok (path, full)
      → IsKey key × Below cwd dir full × (path ≡ storage_path (trim_space bucket) key)
  unfolding resolve_key_path
  resolve_key_path-ok bucket key path full h =
      let found : Bytes = storage_path (trim_space bucket) key in
      let there : Bytes = clean (join_paths (dir ∷ found ∷ [])) in
      let answer : Result Error (Bytes × Bytes) =
        if not (is_within_base cwd dir there) then err path_traversal else ok (found, there) in
      let (valid, rest) = unless-ok (validate_key key) answer (path, full) (ground arith) in
      let inside : is_within_base cwd dir there ≡ true = ground (arith, rest) in
      let same : (found ≡ path) × (there ≡ full) = ground (arith, rest) in
      (
        validate_key-IsKey key valid,
        rw (← same.1) (is_within_base-Below cwd rooted dir there inside),
        sym same.0,
      )

  pub resolve_storage_path-ok :
      (path full : Bytes)
      → resolve_storage_path cwd dir path ≡ ok full
      → (is_abs path ≡ false) × Below cwd dir full
  unfolding resolve_storage_path
  resolve_storage_path-ok path full h =
      let there : Bytes = clean (join_paths (dir ∷ clean path ∷ [])) in
      let inside : is_within_base cwd dir there ≡ true = ground arith in
      let same : there ≡ full = ground arith in
      (ground arith, rw (← same) (is_within_base-Below cwd rooted dir there inside))
