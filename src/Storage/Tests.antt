-- ===== src/Storage/Tests.antt =====
-- Concrete keys and paths.
use fbs_core.Base.{
  true, false, [], ◌∷◌, Bytes, codes, str_eq, has_prefix, has_byte, split, join, trim_space,
  is_blank, ok, err, some, ◌≡◌, refl,
}
use fbs_core.Storage.Paths.{
  is_abs, clean_step, clean_from, clean_segments, clean, non_empty, join_paths, abs, rel_segments,
  rel,
}
use fbs_core.Storage.Utf8.{valid_string, valid_from, step, first_byte}
use fbs_core.Storage.Sanitize.{
  path_traversal, normalized, has_segment, contains_traversal_segment, validate_key, storage_path,
  is_within_base, resolve_key_path, resolve_storage_path,
}
use fbs_core.Storage.Within.{IsKey, Below, resolve_key_path-ok, resolve_storage_path-ok}

cleaned : clean (codes "/a/./b//../c") ≡ codes "/a/c"
unfolding clean clean_segments clean_from clean_step is_abs has_prefix split join str_eq
cleaned = refl

cleaned_relative : clean (codes "../a/..") ≡ codes ".."
unfolding clean clean_segments clean_from clean_step is_abs has_prefix split join str_eq
cleaned_relative = refl

way_up : rel (codes "/a/b") (codes "/a/c/d") ≡ codes "../c/d"
unfolding rel rel_segments clean_segments clean_from clean_step is_abs has_prefix split join str_eq
way_up = refl

backslashes : validate_key (codes "a\\..\\b") ≡ some path_traversal
unfolding validate_key contains_traversal_segment normalized has_segment split str_eq has_prefix
    has_byte
backslashes = refl

surrogate : valid_string (237 ∷ 160 ∷ 128 ∷ []) ≡ false
unfolding valid_string valid_from step first_byte
surrogate = refl

abbrev cwd : Bytes
cwd = codes "/srv"

cwd_rooted : is_abs cwd ≡ true
unfolding is_abs has_prefix
cwd_rooted = refl

key_resolved :
    resolve_key_path cwd (codes "data") (codes "b") (codes "x/y")
    ≡ ok (codes "b/x/y", codes "data/b/x/y")
unfolding resolve_key_path storage_path join_paths non_empty clean clean_segments clean_from
    clean_step is_abs has_prefix split join str_eq is_within_base abs rel rel_segments validate_key
    contains_traversal_segment normalized has_segment has_byte valid_string valid_from step
    first_byte trim_space
key_resolved = refl

path_resolved : resolve_storage_path cwd (codes "data") (codes "b/x") ≡ ok (codes "data/b/x")
unfolding resolve_storage_path join_paths non_empty clean clean_segments clean_from clean_step
    is_abs has_prefix split join str_eq is_within_base abs rel rel_segments is_blank
path_resolved = refl

path_refused : resolve_storage_path cwd (codes "data") (codes "b/../../x") ≡ err path_traversal
unfolding resolve_storage_path join_paths non_empty clean clean_segments clean_from clean_step
    is_abs has_prefix split join str_eq is_within_base abs rel rel_segments is_blank
path_refused = refl

resolve_key_path-ok_example :
    IsKey (codes "x/y")
    × Below cwd (codes "data") (codes "data/b/x/y")
    × (codes "b/x/y" ≡ storage_path (trim_space (codes "b")) (codes "x/y"))
resolve_key_path-ok_example =
    resolve_key_path-ok cwd cwd_rooted (codes "data") (codes "b") (codes "x/y") (codes "b/x/y")
      (codes "data/b/x/y") key_resolved

resolve_storage_path-ok_example :
    (is_abs (codes "b/x") ≡ false) × Below cwd (codes "data") (codes "data/b/x")
resolve_storage_path-ok_example =
    resolve_storage_path-ok cwd cwd_rooted (codes "data") (codes "b/x") (codes "data/b/x")
      path_resolved
