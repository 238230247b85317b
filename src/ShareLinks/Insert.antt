-- ===== src/ShareLinks/Insert.antt =====
-- What insertShareLink stores.
use fbs_core.Base.{
  ℕ, zero, suc, Bytes, List, [], ◌∷◌, length, get_elem?, Option, none, some, str_eq, str_eq_iff,
  Result, ok, err, ◌≡◌, ◌≢◌, ◌⊎◌, inl, inr, refl, arith, Bool-cases, Option-cases, ap,
}
use fbs_core.ShareLinks.{
  ShareLink, ShareLinkError, find_link, create, with_code, stored, with_generated, insert_generated,
  insert_share_link, generate, generate_code, drawn, character, code_alphabet,
}

-- The link was stored at the front, and its code was free.
abbrev pub StoredNew : ShareLink → List ShareLink → ShareLink → List ShareLink → Type 0
StoredNew link l new after =
    (new ≡ with_code link new.code) × (find_link new.code l ≡ none) × (after ≡ new ∷ l)

stored-ok :
    (link : ShareLink) (code : Bytes) (l : List ShareLink) (new : ShareLink)
    (after : List ShareLink)
    → stored (with_code link code) (create (with_code link code) l) ≡ ok (new, after)
    → StoredNew link l new after × (new.code ≡ code)
unfolding create
stored-ok link code l new after h = elim (Option-cases (find_link code l)) [
  | inr (x, taken) ↦ cc (rw taken at h)
  | inl free ↦
      let step : ok (with_code link code, with_code link code ∷ l) ≡ ok (new, after) =
        rw free at h in
      let here : with_code link code ≡ new = ground (arith, step) in
      let there : with_code link code ∷ l ≡ after = ground (arith, step) in
      let same : code ≡ new.code = ap (λ (x : ShareLink). x.code) here in
      (
        (ground (arith, here, same), rw (← same) free, ground (arith, here, there)),
        ground (arith, same),
      )
]

character-ok :
    (o : Option ℕ) (rest : Result ShareLinkError Bytes) (code : Bytes)
    → character (some []) o rest ≡ ok code
    → (s : Bytes) × (rest ≡ ok s) × (length code ≡ suc (length s))
character-ok none rest code h = cc
character-ok (some c) (err e) code h = cc
character-ok (some c) (ok s) code h =
    let here : c ∷ s ≡ code = ground (arith, h) in (s, refl, rw (← here) refl)

drawn-ok :
    (r : Result {0} Unit ℕ) (rest : Result ShareLinkError Bytes) (code : Bytes)
    → drawn r rest ≡ ok code
    → (s : Bytes) × (rest ≡ ok s) × (length code ≡ suc (length s))
drawn-ok (err e) rest code h = cc
drawn-ok (ok n) rest code h = character-ok (get_elem? code_alphabet n) rest code h

-- A generated code has as many characters as were asked for.
generate-length :
    (n : ℕ) (random : ℕ → Result {0} Unit ℕ) (code : Bytes)
    → generate n random ≡ ok code
    → length code ≡ n
unfolding generate
generate-length zero random code h = let here : [] ≡ code = ground (arith, h) in rw (← here) refl
generate-length (suc n) random code h =
    let (s, rest, long) = drawn-ok (random 0) (generate n (λ i. random (suc i))) code h in
    omega (arith, long, generate-length n (λ i. random (suc i)) s rest)

with_generated-ok :
    (link : ShareLink) (l : List ShareLink) (r : Result ShareLinkError Bytes)
    (next : Result ShareLinkError (ShareLink × List ShareLink)) (new : ShareLink)
    (after : List ShareLink)
    → with_generated link l r next ≡ ok (new, after)
    → ((code : Bytes) × (r ≡ ok code) × StoredNew link l new after × (new.code ≡ code))
      ⊎ (next ≡ ok (new, after))
unfolding create
with_generated-ok link l (err e) next new after h = cc
with_generated-ok link l (ok code) next new after h = elim (Option-cases (find_link code l)) [
  | inr (x, taken) ↦ inr (rw taken at h)
  | inl free ↦
      let step : stored (with_code link code) (create (with_code link code) l) ≡ ok (new, after) =
        rw free (rw free at h) in
      let (new_link, same) = stored-ok link code l new after step in
      inl (code, refl, new_link, same)
]

insert_generated-ok :
    (n : ℕ) (random : ℕ → ℕ → Result {0} Unit ℕ) (link : ShareLink) (l : List ShareLink)
    (new : ShareLink) (after : List ShareLink)
    → insert_generated n random link l ≡ ok (new, after)
    → StoredNew link l new after × (length new.code ≡ 10)
unfolding insert_generated generate_code
insert_generated-ok zero random link l new after h = cc
insert_generated-ok (suc n) random link l new after h =
    elim (with_generated-ok link l (generate 10 (random 0)) _ new after h) [
      | inl (code, drew, fresh, same) ↦ (fresh, rw same (generate-length 10 (random 0) code drew))
      | inr later ↦ insert_generated-ok n (λ i. random (suc i)) link l new after later
    ]

-- A share link that is stored has the alias that was asked for, or else a code of ten characters; no
-- other link had that code, the rest of the link is as given, and the other links stay.
pub insert_share_link-ok :
    (random : ℕ → ℕ → Result {0} Unit ℕ) (link : ShareLink) (alias : Bytes) (l : List ShareLink)
    (new : ShareLink) (after : List ShareLink)
    → insert_share_link random link alias l ≡ ok (new, after)
    → StoredNew link l new after
      × (((alias ≢ []) × (new.code ≡ alias)) ⊎ ((alias ≡ []) × (length new.code ≡ 10)))
unfolding insert_share_link
insert_share_link-ok random link alias l new after h = elim (Bool-cases (str_eq alias [])) [
  | inl e ↦
      let (fresh, long) = insert_generated-ok 3 random link l new after (rw e at h) in
      (fresh, inr ((str_eq_iff alias []).0 e, long))
  | inr e ↦
      let (fresh, same) = stored-ok link alias l new after (rw e at h) in
      (fresh, inl ((λ n. ground (arith, e, (str_eq_iff alias []).1 n)), same))
]
