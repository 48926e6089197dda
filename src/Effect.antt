-- ===== src/Effect.antt =====
-- Asynchronous methods: what has been awaited has run, so a method takes the state of what it may
-- change and gives the new state beside what it returned or threw. What was written before a throw
-- stays written.

use coupon_nestjs.Prelude.{Bool, ◌≡◌}
use coupon_nestjs.Common.Errors.{Exception}

pub data Result {ℓ} (A : Type ℓ) : Type ℓ where
  ok : A → Result A
  thrown : Exception → Result A

abbrev pub Async {ℓ} : Type ℓ → Type ℓ → Type ℓ
Async S A = S → Result A × S

module _ {ℓ} {S A : Type ℓ} where
  abbrev pub pure : A → Async S A
  pure a s = (ok a, s)

  abbrev pub throw : Exception → Async S A
  throw e s = (thrown e, s)

  abbrev pub lift : Result A → Async S A
  lift r s = (r, s)

module _ {ℓ} {S A B : Type ℓ} where
  abbrev pub continue : (A → Async S B) → Result A × S → Result B × S
  continue f (ok a, s) = f a s
  continue f (thrown e, s) = (thrown e, s)

  infixl 5 ◌>>=◌ ◌>>◌
  abbrev pub ◌>>=◌ : Async S A → (A → Async S B) → Async S B
  ◌>>=◌ m f s = continue f (m s)

  abbrev pub ◌>>◌ : Async S A → Async S B → Async S B
  m >> n = m >>= λ _. n

module _ {ℓ} {S A : Type ℓ} where
  abbrev pub handled : (Exception → Async S A) → Result A × S → Result A × S
  handled h (ok a, s) = (ok a, s)
  handled h (thrown e, s) = h e s

  -- `try { m } catch (e) { h(e) }`
  abbrev pub try_catch : Async S A → (Exception → Async S A) → Async S A
  try_catch m h s = handled h (m s)

-- `if (b) { m }`
abbrev pub when {ℓ} : {S : Type ℓ} → Bool → Async S (Unit {ℓ}) → Async S (Unit {ℓ})
when b m = elim b [ Bool.true ↦ m | Bool.false ↦ pure tt ]

pub ok-inj {ℓ} : {A : Type ℓ} {a b : A} → ok a ≡ ok b → a ≡ b
ok-inj h = cc h
