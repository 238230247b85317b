-- ===== src/S3/Access/Outcomes.antt =====
-- How a guard ends, by the principal and by what the evaluator answers.
use fbs_core.Base.{
  ◌⊎◌, inl, inr, Bool-cases, Bool, true, false, Option, none, some, is_blank, Result, ok, err, ◌≡◌,
  ◌↔◌, refl, arith,
}
use fbs_core.Auth.Principal.{Principal}
use fbs_core.S3.Access.{S3Error, access_denied, internal_error, identified, for_principal, decided}

pub for_principal-ok :
    (o : Option Principal) (go : Principal → Result S3Error Unit)
    → (for_principal o (err access_denied) go ≡ ok tt)
      ↔ ((p : Principal) × (o ≡ some p) × (go p ≡ ok tt))
for_principal-ok none go = (λ e. cc, λ x. cc (x.1))
for_principal-ok (some q) go =
    (λ e. (q, refl, e), λ x. let (p, same, passed) = x in cc (same, passed))

pub for_principal-failed :
    (o : Option Principal) (go : Principal → Result S3Error Unit)
    → (for_principal o (err access_denied) go ≡ err internal_error)
      ↔ ((p : Principal) × (o ≡ some p) × (go p ≡ err internal_error))
for_principal-failed none go = (λ e. cc, λ x. cc (x.1))
for_principal-failed (some q) go =
    (λ e. (q, refl, e), λ x. let (p, same, wrong) = x in cc (same, wrong))

pub identified-some :
    (o : Option Principal) (p : Principal)
    → (identified o ≡ some p) ↔ ((o ≡ some p) × (is_blank p.user_id ≡ false))
identified-some none p = (λ e. cc, λ x. cc (x.0))
identified-some (some q) p = elim (Bool-cases (is_blank q.user_id)) [
  | inl b ↦ (
    λ e. cc (rw b at e),
    λ x.
        let (same, named) = x in
        let here : q ≡ p = ground (arith, same) in cc (rw (← here) at named),
  )
  | inr b ↦ (
    λ e.
        let same : some q ≡ some p = rw b at e in
        let here : q ≡ p = ground (arith, same) in (same, rw (← here) b),
    λ x. rw b x.0,
  )
]

module _ {E : Type 0} where
  pub decided_ok : (r : Result E Bool) → (decided r ≡ ok tt) ↔ (r ≡ ok true)
  decided_ok (ok true) = (λ e. refl, λ e. refl)
  decided_ok (ok false) = (λ e. cc, λ e. cc)
  decided_ok (err e) = (λ x. cc, λ x. cc)

  pub decided_failed :
      (r : Result E Bool) → (decided r ≡ err internal_error) ↔ ((x : E) × (r ≡ err x))
  decided_failed (ok true) = (λ e. cc, λ x. cc (x.1))
  decided_failed (ok false) = (λ e. cc, λ x. cc (x.1))
  decided_failed (err e) = (λ x. (e, refl), λ x. refl)

  pub decided-cases :
      (r : Result E Bool)
      → (decided r ≡ ok tt) ⊎ ((decided r ≡ err internal_error) ⊎ (decided r ≡ err access_denied))
  decided-cases (ok true) = inl refl
  decided-cases (ok false) = inr (inr refl)
  decided-cases (err e) = inr (inl refl)
