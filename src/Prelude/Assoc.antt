-- ===== src/Prelude/Assoc.antt =====
-- Association lists with texts as keys: the hashes and the sorted set of Redis.
use mathlib.Core.Path.{◌≡◌, refl, ap, ◌∙◌}
use mathlib.Core.Logic.{inl, inr}
use mathlib.Core.Bool.{Bool, true, false}
use mathlib.Core.Option.{Option, none, some}
use mathlib.Core.List.{List, [], ◌∷◌}
use Prim.Native.String.{String}
use native.Mathlib.Omega.{arith}
use coupon_nestjs.Prelude.Tests.{Bool-cases, if◌then◌else◌}
use coupon_nestjs.Prelude.Equality.{◌==◌, string_eq}

-- Two equal texts are compared alike, and of two different ones one only is the third.
==_as : (a b j : String) → (a == b) ≡ true → (a == j) ≡ (b == j)
==_as a b j h = ap (λ x. x == j) (string_eq.eq_of_same a b h)

==_apart : (a b j : String) → (a == b) ≡ false → (a == j) ≡ true → (b == j) ≡ false
==_apart a b j h e = elim (Bool-cases (b == j)) [
  | inl f ↦ absurd (cc (h, string_eq.eq_of_same b j f))
  | inr f ↦ f
]

if_twice {ℓ} :
    {A : Type ℓ} (a b c : A) (t : Bool)
    → (if t then a else b) ≡ (if t then a else (if t then c else b))
if_twice a b c true = refl
if_twice a b c false = refl

module _ {ℓ} {A : Type ℓ} where
  abbrev pub lookup : String → List (String × A) → Option A
  lookup j [] = none
  lookup j ((k, v) ∷ m) = if k == j then some v else lookup j m

  abbrev pub insert : String → A → List (String × A) → List (String × A)
  insert k v [] = (k, v) ∷ []
  insert k v ((k', v') ∷ m) =
      let rest = insert k v m in if k' == k then (k, v) ∷ m else (k', v') ∷ rest

  abbrev pub erase : String → List (String × A) → List (String × A)
  erase k [] = []
  erase k ((k', v') ∷ m) = let rest = erase k m in if k' == k then rest else (k', v') ∷ rest

  -- One after another.
  abbrev pub insert_all : List (String × A) → List (String × A) → List (String × A)
  insert_all [] m = m
  insert_all ((k, v) ∷ fields) m = insert_all fields (insert k v m)

  pub lookup-insert :
      (k j : String) (v : A) (m : List (String × A))
      → lookup j (insert k v m) ≡ (if k == j then some v else lookup j m)
  lookup-insert k j v [] = refl
  lookup-insert k j v ((k', v') ∷ m) = elim (Bool-cases (k' == k)) [
    | inl here ↦ elim (Bool-cases (k == j)) [
      | inl asked ↦ rw (here, asked) refl
      | inr other ↦ rw (here, other, ==_as k' k j here, other) refl
    ]
    | inr there ↦ elim (Bool-cases (k' == j)) [
      | inl asked ↦ rw (there, asked, ==_apart k' k j there asked) refl
      | inr other ↦ rw (there, other) (lookup-insert k j v m)
    ]
  ]

  pub lookup-erase :
      (k j : String) (m : List (String × A))
      → lookup j (erase k m) ≡ (if k == j then none else lookup j m)
  lookup-erase k j [] = ground arith
  lookup-erase k j ((k', v') ∷ m) = elim (Bool-cases (k' == k)) [
    | inl here ↦ rw (here, ==_as k' k j here) (lookup-erase k j m ∙ if_twice none _ _ (k == j))
    | inr there ↦ elim (Bool-cases (k' == j)) [
      | inl asked ↦ rw (there, asked, ==_apart k' k j there asked) refl
      | inr other ↦ rw (there, other) (lookup-erase k j m)
    ]
  ]
