-- ===== src/Storage/Sanitize.antt =====
-- internal/storage/sanitize.go; `data_dir` and `cwd` are the engine's directory and the process's.
use fbs_core.Base.{
  ltb, ◌==◌, Bool, true, false, not, ◌||◌, Bytes, List, [], ◌∷◌, length, codes, str_eq, has_prefix,
  has_byte, split, trim_space, is_blank, if◌then◌else◌, Result, ok, err, Option, none, some,
}
use fbs_core.Storage.Paths.{dot_dot, is_abs, clean, join_paths, abs, rel}
use fbs_core.Storage.Utf8.{valid_string}

pub data Error : Type 0 where
  not_found invalid_key path_traversal : Error

-- strings.ReplaceAll(key, "\\", "/")
unfoldable pub normalized : Bytes → Bytes
normalized [] = []
normalized (c ∷ s) = (if c == b'\\' then b'/' else c) ∷ normalized s

unfoldable pub has_segment : Bytes → List Bytes → Bool
has_segment name [] = false
has_segment name (s ∷ rest) = str_eq s name || has_segment name rest

unfoldable pub contains_traversal_segment : Bytes → Bool
unfolding normalized has_segment
contains_traversal_segment key = has_segment dot_dot (split b'/' (normalized key))

-- `none` is the nil error.
unfoldable pub validate_key : Bytes → Option Error
validate_key key =
    if str_eq key []
    then some invalid_key
    else if ltb 1024 (length key)
    then some invalid_key
    else if str_eq key (codes ".") || str_eq key dot_dot
    then some invalid_key
    else if has_prefix key (codes "/")
    then some invalid_key
    else if has_byte 0 key
    then some invalid_key
    else if has_byte 10 key || has_byte 13 key
    then some invalid_key
    else if contains_traversal_segment key
    then some path_traversal
    else if not (valid_string key)
    then some invalid_key
    else if str_eq (clean key) (codes ".") || str_eq (clean key) []
    then some invalid_key
    else none

unfoldable pub validate_upload_id : Bytes → Option Error
validate_upload_id upload_id =
    if is_blank upload_id
    then some invalid_key
    else if has_byte b'/' upload_id || has_byte b'\\' upload_id
    then some invalid_key
    else if has_byte 0 upload_id || has_byte 10 upload_id || has_byte 13 upload_id
    then some invalid_key
    else if contains_traversal_segment upload_id
    then some path_traversal
    else if not (valid_string upload_id)
    then some invalid_key
    else none

unfoldable pub storage_path : Bytes → Bytes → Bytes
storage_path bucket_name key = join_paths (bucket_name ∷ clean key ∷ [])

unfoldable pub is_within_base : Bytes → Bytes → Bytes → Bool
is_within_base cwd base target =
    let way = rel (abs cwd base) (abs cwd target) in
    if str_eq way dot_dot then false else if has_prefix way (codes "../") then false else true

-- `if err := ValidateKey(key); err != nil { return "", "", err }`
abbrev pub unless : {A : Type 0} → Option Error → Result Error A → Result Error A
unless none r = r
unless (some e) r = err e

-- The storage path and the full path.
unfoldable pub resolve_key_path : Bytes → Bytes → Bytes → Bytes → Result Error (Bytes × Bytes)
resolve_key_path cwd data_dir bucket_name key =
    let bucket = trim_space bucket_name in
    let path = storage_path bucket key in
    let full = clean (join_paths (data_dir ∷ path ∷ [])) in
    if str_eq bucket []
    then err invalid_key
    else unless (validate_key key)
        (if not (is_within_base cwd data_dir full) then err path_traversal else ok (path, full))

unfoldable pub resolve_storage_path : Bytes → Bytes → Bytes → Result Error Bytes
resolve_storage_path cwd data_dir path =
    let full = clean (join_paths (data_dir ∷ clean path ∷ [])) in
    if is_blank path
    then err invalid_key
    else if is_abs path
    then err invalid_key
    else if not (is_within_base cwd data_dir full)
    then err path_traversal
    else ok full
