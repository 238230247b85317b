-- ===== src/Auth/Chain/Refusal.antt =====
-- The error of a chain of authenticators that refuses a request.
use fbs_core.Base.{
  true, false, Bytes, List, [], ◌∷◌, ◌++◌, none, some, str_eq, Result, ok, err, All, ◌≡◌, ◌↔◌, refl,
  ◌∙◌, arith, inl, inr, ◌≢◌, str_eq_iff, Bool-cases, false_of_not, append-nil,
}
use fbs_core.Auth.Principal.{
  Principal, Error, not_applicable, missing_auth, unsupported_scheme, malformed_token,
  invalid_credentials, inactive_user, internal,
}
use fbs_core.Auth.Chain.{
  Authenticator, Refuses, is_not_applicable, or_continue, authenticate_from, authenticate,
}

-- The error of a request that all refuse: that of the first that refuses it although it applies, and
-- else that the scheme is not supported, or that the header is not there.
pub data Refused (header : Bytes) (e : Error) : List Authenticator → Type 0 where
  first :
      (before : List Authenticator) (a : Authenticator) (after : List Authenticator)
      → All (λ b. b header ≡ err not_applicable) before
      → a header ≡ err e
      → e ≢ not_applicable
      → All (Refuses header) after
      → Refused header e (before ++ (a ∷ after))
  scheme :
      (l : List Authenticator)
      → All (λ b. b header ≡ err not_applicable) l
      → header ≢ []
      → e ≡ unsupported_scheme
      → Refused header e l
  missing :
      (l : List Authenticator)
      → All (λ b. b header ≡ err not_applicable) l
      → header ≡ []
      → e ≡ missing_auth
      → Refused header e l

or_continue-err :
    (r : Result Error Principal) (go : Error → Result Error Principal) (e : Error)
    → or_continue r go ≡ err e
    → (x : Error) × (r ≡ err x) × (go x ≡ err e)
or_continue-err (ok q) go e h = cc
or_continue-err (err x) go e h = (x, refl, h)

is_not_applicable-eq : (e : Error) → is_not_applicable e ≡ true → e ≡ not_applicable
is_not_applicable-eq not_applicable h = refl
is_not_applicable-eq missing_auth h = cc
is_not_applicable-eq unsupported_scheme h = cc
is_not_applicable-eq malformed_token h = cc
is_not_applicable-eq invalid_credentials h = cc
is_not_applicable-eq inactive_user h = cc
is_not_applicable-eq internal h = cc

applicable : (e : Error) → is_not_applicable e ≡ false → e ≢ not_applicable
applicable e h same = cc (rw same at h)

module _ (header : Bytes) where
  -- Once an error is kept, it is the one that is given.
  chain-kept :
      (l : List Authenticator) (x e : Error)
      → authenticate_from l (some x) header ≡ err e
      → All (Refuses header) l × (x ≡ e)
  unfolding authenticate_from
  chain-kept [] x e h = (tt, ground (arith, h))
  chain-kept (a ∷ l) x e h =
      let (y, refused, later) = or_continue-err (a header) _ e h in
      let (refuse, same) = chain-kept l x e later in (((y, refused), refuse), same)

  Refused-later :
      (a : Authenticator) (l : List Authenticator) (e : Error)
      → a header ≡ err not_applicable
      → Refused header e l
      → Refused header e (a ∷ l)
  Refused-later a _ e h (first before b after none_before refused applies refuse) =
      first (a ∷ before) b after (h, none_before) refused applies refuse
  Refused-later a _ e h (scheme l all there same) = scheme (a ∷ l) (h, all) there same
  Refused-later a _ e h (missing l all gone same) = missing (a ∷ l) (h, all) gone same

  chain-Refused :
      (l : List Authenticator) (e : Error)
      → authenticate_from l none header ≡ err e
      → Refused header e l
  unfolding authenticate_from
  chain-Refused [] e h = elim (Bool-cases (str_eq header [])) [
    | inl empty ↦ missing [] tt ((str_eq_iff header []).0 empty) (ground (arith, empty, h))
    | inr there ↦
        scheme [] tt (λ same. cc (there, (str_eq_iff header []).1 same)) (ground (arith, there, h))
  ]
  chain-Refused (a ∷ l) e h =
      let (x, refused, later) = or_continue-err (a header) _ e h in
      elim (Bool-cases (is_not_applicable x)) [
        | inl skip ↦
            let same = is_not_applicable-eq x skip in
            Refused-later a l e (rw same at refused) (chain-Refused l e (rw skip at later))
        | inr keep ↦
            let (refuse, same) = chain-kept l x e (rw keep at later) in
            first [] a l tt (rw same at refused) (rw (← same) (applicable x keep)) refuse
      ]

  kept-chain :
      (l : List Authenticator) (x : Error)
      → All (Refuses header) l
      → authenticate_from l (some x) header ≡ err x
  unfolding authenticate_from
  kept-chain [] x refuse = refl
  kept-chain (a ∷ l) x ((y, refused), refuse) = rw refused (kept-chain l x refuse)

  skipped-chain :
      (before after : List Authenticator)
      → All (λ b. b header ≡ err not_applicable) before
      → authenticate_from (before ++ after) none header ≡ authenticate_from after none header
  unfolding authenticate_from
  skipped-chain [] after h = refl
  skipped-chain (a ∷ before) after (h, rest) = rw h (skipped-chain before after rest)

  Refused-chain :
      (l : List Authenticator) (e : Error)
      → Refused header e l
      → authenticate_from l none header ≡ err e
  unfolding authenticate_from str_eq
  Refused-chain _ e (first before a after none_before refused applies refuse) =
      let skip : is_not_applicable e ≡ false =
        false_of_not (is_not_applicable e) (λ x. applies (is_not_applicable-eq e x)) in
      skipped-chain before (a ∷ after) none_before ∙ rw (refused, skip) (kept-chain after e refuse)
  Refused-chain _ e (scheme l all there same) =
      let full : str_eq header [] ≡ false =
        false_of_not (str_eq header []) (λ x. there ((str_eq_iff header []).0 x)) in
      rw (same, ← append-nil l) (skipped-chain l [] all ∙ rw full refl)
  Refused-chain _ e (missing l all gone same) =
      rw (same, ← append-nil l) (skipped-chain l [] all ∙ rw gone refl)

module _ (l : List Authenticator) (header : Bytes) where
  -- A chain refuses a request with an error exactly when no authenticator accepts it and the error is
  -- that of the first one that applies, or, when none does, that the scheme is not supported if there
  -- is an Authorization header, and that it is missing if there is none.
  pub authenticate-err : (e : Error) → (authenticate l header ≡ err e) ↔ Refused header e l
  unfolding authenticate
  authenticate-err e = (chain-Refused header l e, Refused-chain header l e)
