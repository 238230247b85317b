-- ===== src/Metadata/Users/Keys.antt =====
-- Whom the keys of the users name, and the first user.
use fbs_core.Base.{
  ltb, not, Bytes, List, [], ◌∷◌, length, Option, none, some, str_eq, ok, err, checked-ok, ◌≡◌,
  refl, arith, Bool-cases, Option-cases, inl, inr,
}
use fbs_core.Metadata.Model.{Time, User}
use fbs_core.Metadata.Users.{
  users_already_exist, user_constraint, find_user, has_id, has_sigv4_key, admissible, insert_user,
  create_first_user, updated, update, set_row,
}

-- A first user is created only in an empty table, and is then the only one; no further call succeeds.
pub create_first_user-ok :
    (u : User) (l after : List User)
    → create_first_user u l ≡ ok after
    → (l ≡ [])
      × (after ≡ u ∷ [])
      × ((v : User) → create_first_user v after ≡ err users_already_exist)
unfolding create_first_user insert_user
create_first_user-ok u [] after h =
    let (_, same) = checked-ok (not (admissible u [])) user_constraint (ok (u ∷ [])) h in
    let here : u ∷ [] ≡ after = ground (arith, same) in
    (refl, ground (arith, here), λ v. rw (← here) refl)
create_first_user-ok u (x ∷ l) after h =
    let (none_yet, _) = checked-ok (ltb 0 (length (x ∷ l))) users_already_exist _ h in
    absurd (ground (arith, none_yet))

-- The user and the secret that an access key stands for.
abbrev pub sigv4_view : Option User → Option (Bytes × Bytes)
sigv4_view none = none
sigv4_view (some u) = some (u.id, u.sigv4_secret_key)

set_row-sigv4_view :
    (now : Time) (key : Bytes) (u x : User) (l : List User)
    → find_user (has_id u.id) l ≡ some x
    → sigv4_view (find_user (has_sigv4_key key) (set_row u.id (updated now u x) l))
      ≡ sigv4_view (find_user (has_sigv4_key key) l)
unfolding find_user set_row
set_row-sigv4_view now key u x [] h = refl
set_row-sigv4_view now key u x (y ∷ l) h = elim (Bool-cases (str_eq y.id u.id)) [
  | inl e ↦ let same : y ≡ x = ground (arith, e, h) in rw (e, ← same) (ground arith)
  | inr e ↦ rw e (ground (arith, e, h, set_row-sigv4_view now key u x l))
]

-- An update that succeeds leaves every SigV4 access key with the user and the secret it had, whatever
-- the caller passes for them.
pub update-sigv4_view :
    (now : Time) (u : User) (l after : List User)
    → update now u l ≡ ok after
    → (key : Bytes)
    → sigv4_view (find_user (has_sigv4_key key) after)
      ≡ sigv4_view (find_user (has_sigv4_key key) l)
unfolding update
update-sigv4_view now u l after h key = elim (Option-cases (find_user (has_id u.id) l)) [
  | inl gone ↦ cc (rw gone at h)
  | inr (x, found) ↦
      let (_, step) =
        checked-ok _ user_constraint (ok (set_row u.id (updated now u x) l)) (rw found at h) in
      let here : set_row u.id (updated now u x) l ≡ after = ground (arith, step) in
      rw (← here) (set_row-sigv4_view now key u x l found)
]
