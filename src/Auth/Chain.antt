-- ===== src/Auth/Chain.antt =====
-- internal/auth/authenticator.go: the authenticators are tried in order. An authenticator is a
-- function of the request, and of a request only the Authorization header is read here.
pub mod Refusal
use fbs_core.Base.{
  Bool, true, false, not, Bytes, List, [], ◌∷◌, ◌++◌, Option, none, some, str_eq, if◌then◌else◌,
  Result, ok, err, All, ◌≡◌, ◌↔◌, refl, ap, ◌∙◌, arith, ◌⊎◌, inl, inr, ◌≢◌, str_eq_iff, Bool-cases,
  false_of_not, append-nil,
}
use fbs_core.Auth.Principal.{
  Principal, Error, not_applicable, missing_auth, unsupported_scheme, malformed_token,
  invalid_credentials, inactive_user, internal,
}

abbrev pub Authenticator : Type 0
Authenticator = Bytes → Result Error Principal

abbrev pub is_not_applicable : Error → Bool
is_not_applicable not_applicable = true
is_not_applicable _ = false

-- `if authErr == nil { authErr = err }`, past the errors that are not applicable.
abbrev pub kept_error : Option Error → Error → Option Error
kept_error (some e) x = some e
kept_error none x = if is_not_applicable x then none else some x

abbrev pub final_error : Option Error → Bytes → Error
final_error (some e) header = e
final_error none header = if not (str_eq header []) then unsupported_scheme else missing_auth

-- `if err == nil { return p, nil }`, and else what follows.
abbrev pub or_continue :
    Result Error Principal → (Error → Result Error Principal) → Result Error Principal
or_continue (ok p) go = ok p
or_continue (err e) go = go e

unfoldable pub authenticate_from : List Authenticator → Option Error → Authenticator
authenticate_from [] auth_err header = err (final_error auth_err header)
authenticate_from (a ∷ rest) auth_err header =
    or_continue (a header) (λ e. authenticate_from rest (kept_error auth_err e) header)

unfoldable pub authenticate : List Authenticator → Authenticator
unfolding authenticate_from
authenticate authenticators header = authenticate_from authenticators none header

-- An authenticator that refuses the request, with its error.
abbrev pub Refuses : Bytes → Authenticator → Type 0
Refuses header a = (e : Error) × (a header ≡ err e)

-- The first authenticator that accepts the request gives its principal.
abbrev pub Accepted : List Authenticator → Bytes → Principal → Type 0
Accepted l header p =
    (before : List Authenticator) × (a : Authenticator) × (after : List Authenticator) × (l
      ≡ before ++ (a ∷ after))
    × All (Refuses header) before
    × (a header ≡ ok p)

or_continue-ok :
    (r : Result Error Principal) (go : Error → Result Error Principal) (p : Principal)
    → or_continue r go ≡ ok p
    → (r ≡ ok p) ⊎ ((e : Error) × (r ≡ err e) × (go e ≡ ok p))
or_continue-ok (ok q) go p h = inl h
or_continue-ok (err e) go p h = inr (e, refl, h)

module _ (header : Bytes) where
  chain-Accepted :
      (l : List Authenticator) (acc : Option Error) (p : Principal)
      → authenticate_from l acc header ≡ ok p
      → Accepted l header p
  unfolding authenticate_from
  chain-Accepted [] acc p h = cc
  chain-Accepted (a ∷ l) acc p h = elim (or_continue-ok (a header) _ p h) [
    | inl here ↦ ([], a, l, refl, tt, here)
    | inr (e, refused, later) ↦
        let (before, b, after, cuts, refuse, accepts) =
          chain-Accepted l (kept_error acc e) p later in
        (a ∷ before, b, after, ap (◌∷◌ a) cuts, ((e, refused), refuse), accepts)
  ]

  Accepted-chain :
      (before : List Authenticator) (a : Authenticator) (after : List Authenticator)
      (acc : Option Error) (p : Principal)
      → All (Refuses header) before
      → a header ≡ ok p
      → authenticate_from (before ++ (a ∷ after)) acc header ≡ ok p
  unfolding authenticate_from
  Accepted-chain [] a after acc p refuse accepts = rw accepts refl
  Accepted-chain (b ∷ before) a after acc p ((e, refused), refuse) accepts =
      rw refused (Accepted-chain before a after (kept_error acc e) p refuse accepts)

module _ (l : List Authenticator) (header : Bytes) where
  -- A chain of authenticators gives a principal exactly when one of them accepts the request and
  -- those before it refuse it, and then the principal of that one.
  pub authenticate_iff : (p : Principal) → (authenticate l header ≡ ok p) ↔ Accepted l header p
  unfolding authenticate
  authenticate_iff p = (
    chain-Accepted header l none p,
    λ x.
        let (before, a, after, cuts, refuse, accepts) = x in
        rw cuts (Accepted-chain header before a after none p refuse accepts),
  )
