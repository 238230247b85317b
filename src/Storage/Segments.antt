-- ===== src/Storage/Segments.antt =====
-- Paths as lists of elements: an absolute path has no `..` left, and where `rel` climbs.
use fbs_core.Base.{
  ℕ, true, ◌||◌, Bytes, List, [], ◌∷◌, ◌++◌, codes, str_eq, str_eq_iff, str_eq_refl, has_prefix,
  has_prefix-nil, has_prefix-append, split, join, All, ◌≡◌, ◌≢◌, ◌⊎◌, inl, inr, refl, sym, ap, ◌∙◌,
  arith, Bool-cases,
}
use mathlib.Core.List.{reverse_aux}
use fbs_core.Storage.Paths.{
  dot_dot, is_abs, pop_or, clean_step, clean_from, clean_segments, clean, non_empty, join_paths,
  abs, rel_segments, or_dot,
}

-- No element is `..`.
abbrev pub NoClimb : List Bytes → Type 0
NoClimb l = All (λ s. s ≢ dot_dot) l

pop_or-NoClimb : (kept : List Bytes) → NoClimb kept → NoClimb (pop_or true kept)
pop_or-NoClimb [] h = tt
pop_or-NoClimb (s ∷ kept) (here, h) = elim (Bool-cases (str_eq s dot_dot)) [
  | inl e ↦ absurd (here ((str_eq_iff s dot_dot).0 e))
  | inr e ↦ rw e h
]

clean_step-NoClimb :
    (kept : List Bytes) (s : Bytes) → NoClimb kept → NoClimb (clean_step true kept s)
unfolding clean_step
clean_step-NoClimb kept s h = elim (Bool-cases (str_eq s [] || str_eq s (codes "."))) [
  | inl e ↦ rw e h
  | inr e ↦ elim (Bool-cases (str_eq s dot_dot)) [
    | inl d ↦ rw (e, d) (pop_or-NoClimb kept h)
    | inr d ↦ rw (e, d) (λ same. ground (arith, d, str_eq_iff s dot_dot, same), h)
  ]
]

reverse_aux-NoClimb :
    (l kept : List Bytes) → NoClimb l → NoClimb kept → NoClimb (reverse_aux l kept)
reverse_aux-NoClimb [] kept h k = k
reverse_aux-NoClimb (s ∷ l) kept (here, h) k = reverse_aux-NoClimb l (s ∷ kept) h (here, k)

clean_from-NoClimb : (kept l : List Bytes) → NoClimb kept → NoClimb (clean_from true kept l)
unfolding clean_from
clean_from-NoClimb kept [] h = reverse_aux-NoClimb kept [] h tt
clean_from-NoClimb kept (s ∷ rest) h =
    clean_from-NoClimb (clean_step true kept s) rest (clean_step-NoClimb kept s h)

pub clean_segments-NoClimb : (path : Bytes) → is_abs path ≡ true → NoClimb (clean_segments path)
unfolding clean_segments
clean_segments-NoClimb path h = rw h (clean_from-NoClimb [] (split b'/' path) tt)

rooted_body : (s : Bytes) → is_abs (codes "/" ++ s) ≡ true
unfolding is_abs
rooted_body s = has_prefix-append (codes "/") s

is_abs-clean : (path : Bytes) → is_abs path ≡ true → is_abs (clean path) ≡ true
unfolding clean
is_abs-clean path h = rw h (rooted_body (join (codes "/") (clean_segments path)))

is_abs_head : (c : ℕ) (s t : Bytes) → is_abs (c ∷ s) ≡ true → is_abs (c ∷ t) ≡ true
unfolding is_abs has_prefix
is_abs_head c s t h = ground (arith, has_prefix-nil s, has_prefix-nil t)

join_starts :
    (c : ℕ) (s : Bytes) (rest : List Bytes)
    → is_abs (c ∷ s) ≡ true
    → is_abs (join (codes "/") ((c ∷ s) ∷ rest)) ≡ true
unfolding join
join_starts c s [] h = h
join_starts c s (q ∷ rest) h = is_abs_head c s (s ++ (codes "/" ++ join (codes "/") (q ∷ rest))) h

joined_abs :
    (c : ℕ) (s path : Bytes)
    → is_abs (c ∷ s) ≡ true
    → is_abs (join_paths ((c ∷ s) ∷ path ∷ [])) ≡ true
unfolding join_paths non_empty str_eq
joined_abs c s path h = is_abs-clean _ (join_starts c s (non_empty (path ∷ [])) h)

pub abs-is_abs : (cwd path : Bytes) → is_abs cwd ≡ true → is_abs (abs cwd path) ≡ true
unfolding abs
abs-is_abs [] path h = absurd (unfold is_abs has_prefix in cc (h))
abs-is_abs (c ∷ s) path h = elim (Bool-cases (is_abs path)) [
  | inl e ↦ rw e (is_abs-clean path e)
  | inr e ↦ rw e (joined_abs c s path h)
]

-- Past the base there is only a way down, or the way starts with `..`.
pub rel_segments-cases :
    (base target : List Bytes)
    → ((rest : List Bytes) × (target ≡ base ++ rest))
      ⊎ ((tail : List Bytes) × (rel_segments base target ≡ dot_dot ∷ tail))
unfolding rel_segments
rel_segments-cases [] target = inl (target, refl)
rel_segments-cases (b ∷ base) [] = inr (rel_segments base [], refl)
rel_segments-cases (b ∷ base) (t ∷ target) = elim (Bool-cases (str_eq b t)) [
  | inl e ↦ elim (rel_segments-cases base target) [
    | inl (rest, same) ↦
        inl (rest, ap (λ x. x ∷ target) (sym ((str_eq_iff b t).0 e)) ∙ ap (◌∷◌ b) same)
    | inr (tail, same) ↦ inr (tail, rw e same)
  ]
  | inr e ↦ inr (rel_segments base [] ++ (t ∷ target), rw e refl)
]

-- A way that starts with `..` is `..` or starts with `../`.
pub climbs :
    (tail : List Bytes)
    → (str_eq (or_dot (join (codes "/") (dot_dot ∷ tail))) dot_dot ≡ true)
      ⊎ (has_prefix (or_dot (join (codes "/") (dot_dot ∷ tail))) (codes "../") ≡ true)
unfolding join
climbs [] = inl (str_eq_refl dot_dot)
climbs (q ∷ tail) = inr (has_prefix-append (codes "../") (join (codes "/") (q ∷ tail)))
