-- ===== src/Prelude/Equality.antt =====
-- `===` on the types that the program compares, as one operator with an instance for each type.
use Prim.Native.Nat.{ℕ}
use Prim.Native.String.{String}
use mathlib.Core.Path.{◌≡◌, refl}
use mathlib.Core.Bool.{Bool, true}
use native.Mathlib.Omega.{arith}
use text.Mathlib.Text.{◌==◌ as text_beq}
use text.Mathlib.TextEquality.{eq_iff}
use coupon_nestjs.Prelude.Tests.{nat_beq}
use coupon_nestjs.Prelude.Int.{ℤ, int_beq, int_beq_iff}

-- A test that tells equal values from others.
pub record Comparable {κ} (T : Type κ) : Type κ where
  pub same : T → T → Bool
  pub same_refl : (x : T) → same x x ≡ true
  pub eq_of_same : (x y : T) → same x y ≡ true → x ≡ y

-- The numbers of the model that are never negative.
pub nat_beq_refl : (n : ℕ) → nat_beq n n ≡ true
nat_beq_refl n = ground arith

pub eq_of_nat_beq : (m n : ℕ) → nat_beq m n ≡ true → m ≡ n
eq_of_nat_beq m n h = ground arith

instance abbrev pub int_eq : Comparable ℤ
int_eq = record {
  same = int_beq;
  same_refl = λ a. (int_beq_iff a a).1 refl;
  eq_of_same = λ a b. (int_beq_iff a b).0;
}

instance abbrev pub string_eq : Comparable String
string_eq = record {
  same = text_beq;
  same_refl = λ s. (eq_iff s s).1 refl;
  eq_of_same = λ s t. (eq_iff s t).0;
}

instance abbrev pub nat_eq : Comparable ℕ
nat_eq = record { same = nat_beq; same_refl = nat_beq_refl; eq_of_same = eq_of_nat_beq }

module _ {κ} {T : Type κ} ⦃c : Comparable T⦄ where
  infix 50 ◌==◌
  abbrev pub ◌==◌ : T → T → Bool
  x == y = c.same x y

  pub ==_refl : (x : T) → (x == x) ≡ true
  ==_refl x = c.same_refl x
