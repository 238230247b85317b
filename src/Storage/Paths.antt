-- ===== src/Storage/Paths.antt =====
-- What internal/storage uses of path/filepath on Unix: Clean, Join, IsAbs, Abs and Rel. `cwd` is the
-- working directory, an absolute path.
use fbs_core.Base.{
  Bool, ◌||◌, Bytes, List, [], ◌∷◌, ◌++◌, codes, str_eq, has_prefix, split, join, if◌then◌else◌,
}
use mathlib.Core.List.{reverse}

abbrev pub dot_dot : Bytes
dot_dot = codes ".."

unfoldable pub is_abs : Bytes → Bool
is_abs path = has_prefix path (codes "/")

-- One element of a path, on the elements kept so far, the last one first: an empty element and `.`
-- are dropped, and `..` takes back the element before it. At the root there is none to take back.
abbrev pub pop_or : Bool → List Bytes → List Bytes
pop_or rooted [] = if rooted then [] else dot_dot ∷ []
pop_or rooted (s ∷ kept) = if str_eq s dot_dot then dot_dot ∷ s ∷ kept else kept

unfoldable pub clean_step : Bool → List Bytes → Bytes → List Bytes
clean_step rooted kept s =
    if str_eq s [] || str_eq s (codes ".")
    then kept
    else if str_eq s dot_dot
    then pop_or rooted kept
    else s ∷ kept

unfoldable pub clean_from : Bool → List Bytes → List Bytes → List Bytes
unfolding clean_step
clean_from rooted kept [] = reverse kept
clean_from rooted kept (s ∷ rest) = clean_from rooted (clean_step rooted kept s) rest

unfoldable pub clean_segments : Bytes → List Bytes
clean_segments path = clean_from (is_abs path) [] (split b'/' path)

abbrev pub or_dot : Bytes → Bytes
or_dot [] = codes "."
or_dot (c ∷ s) = c ∷ s

-- filepath.Clean
unfoldable pub clean : Bytes → Bytes
clean path =
    let body = join (codes "/") (clean_segments path) in
    if is_abs path then codes "/" ++ body else or_dot body

unfoldable pub non_empty : List Bytes → List Bytes
non_empty [] = []
non_empty (s ∷ rest) = let others = non_empty rest in if str_eq s [] then others else s ∷ others

abbrev joined : List Bytes → Bytes
joined [] = []
joined (s ∷ rest) = clean (join (codes "/") (s ∷ rest))

-- filepath.Join
unfoldable pub join_paths : List Bytes → Bytes
join_paths elements = joined (non_empty elements)

-- filepath.Abs
unfoldable pub abs : Bytes → Bytes → Bytes
abs cwd path = if is_abs path then clean path else join_paths (cwd ∷ path ∷ [])

-- The way from one list of elements to another, past the elements that they share.
unfoldable pub rel_segments : List Bytes → List Bytes → List Bytes
rel_segments [] target = target
rel_segments (b ∷ base) [] = dot_dot ∷ rel_segments base []
rel_segments (b ∷ base) (t ∷ target) =
    let shared = rel_segments base target in
    let apart = rel_segments base [] in
    if str_eq b t then shared else dot_dot ∷ (apart ++ (t ∷ target))

-- filepath.Rel on two absolute paths, which does not fail.
unfoldable pub rel : Bytes → Bytes → Bytes
rel base target =
    or_dot (join (codes "/") (rel_segments (clean_segments base) (clean_segments target)))
