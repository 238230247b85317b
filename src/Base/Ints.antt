-- ===== src/Base/Ints.antt =====
-- Signed integers over the native numbers, with their tests.
use Prim.Native.Nat.{ℕ}
use mathlib.Core.Path.{◌≡◌, refl}
use mathlib.Core.Logic.{◌↔◌}
use mathlib.Core.Bool.{Bool, true, false}
use native.Mathlib.Omega.{arith}
use fbs_core.Base.Bools.{ltb, ◌==◌}

pub data ℤ : Type 0 where
  pos negsuc : ℕ → ℤ

abbrev pub int_eq : ℤ → ℤ → Bool
int_eq (pos a) (pos b) = a == b
int_eq (pos a) (negsuc b) = false
int_eq (negsuc a) (pos b) = false
int_eq (negsuc a) (negsuc b) = a == b

abbrev pub int_ltb : ℤ → ℤ → Bool
int_ltb (pos a) (pos b) = ltb a b
int_ltb (pos a) (negsuc b) = false
int_ltb (negsuc a) (pos b) = true
int_ltb (negsuc a) (negsuc b) = ltb b a

pub int_eq_iff : (a b : ℤ) → (int_eq a b ≡ true) ↔ (a ≡ b)
int_eq_iff (pos a) (pos b) = (λ h. ground arith, λ h. ground arith)
int_eq_iff (pos a) (negsuc b) = (λ h. cc, λ h. cc)
int_eq_iff (negsuc a) (pos b) = (λ h. cc, λ h. cc)
int_eq_iff (negsuc a) (negsuc b) = (λ h. ground arith, λ h. ground arith)

-- Of two integers that differ, one is the smaller.
pub int_ltb_of_not : (a b : ℤ) → int_ltb b a ≡ false → int_eq a b ≡ false → int_ltb a b ≡ true
int_ltb_of_not (pos a) (pos b) h d = ground arith
int_ltb_of_not (pos a) (negsuc b) h d = cc
int_ltb_of_not (negsuc a) (pos b) h d = refl
int_ltb_of_not (negsuc a) (negsuc b) h d = ground arith

pub int_ltb_asymm : (a b : ℤ) → int_ltb a b ≡ true → int_ltb b a ≡ false
int_ltb_asymm (pos a) (pos b) h = ground arith
int_ltb_asymm (pos a) (negsuc b) h = cc
int_ltb_asymm (negsuc a) (pos b) h = refl
int_ltb_asymm (negsuc a) (negsuc b) h = ground arith

pub int_ltb_trans : (a b c : ℤ) → int_ltb a b ≡ true → int_ltb b c ≡ true → int_ltb a c ≡ true
int_ltb_trans (pos a) (pos b) (pos c) h k = ground arith
int_ltb_trans (pos a) (pos b) (negsuc c) h k = cc
int_ltb_trans (pos a) (negsuc b) c h k = cc
int_ltb_trans (negsuc a) (pos b) (pos c) h k = refl
int_ltb_trans (negsuc a) (pos b) (negsuc c) h k = cc
int_ltb_trans (negsuc a) (negsuc b) (pos c) h k = refl
int_ltb_trans (negsuc a) (negsuc b) (negsuc c) h k = ground arith

pub int_ltb_irrefl : (a b : ℤ) → int_ltb a b ≡ true → int_eq a b ≡ false
int_ltb_irrefl (pos a) (pos b) h = ground arith
int_ltb_irrefl (pos a) (negsuc b) h = refl
int_ltb_irrefl (negsuc a) (pos b) h = refl
int_ltb_irrefl (negsuc a) (negsuc b) h = ground arith
