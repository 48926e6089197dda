-- ===== src/Prelude/Lists.antt =====
-- Lists counted and cut by native numbers, and the predicates on lists that the components share.
use Prim.Native.Nat.{ℕ, zero, suc, ◌+◌, ◌≤◌, ◌<◌}
use mathlib.Core.Path.{◌≡◌, refl, ◌∙◌}
use mathlib.Core.Logic.{inl, inr}
use mathlib.Core.Bool.{Bool, true, false, ◌||◌}
use mathlib.Core.Option.{Option, none, some}
use mathlib.Core.List.{List, [], ◌∷◌, ◌++◌, map, Memᴰ}
use mathlib.Core.Option
use native.Mathlib.Omega.{arith}
use coupon_nestjs.Prelude.Tests.{Bool-cases, if◌then◌else◌}

module _ {ℓ} {A : Type ℓ} where
  abbrev pub length : List A → ℕ
  length [] = 0
  length (x ∷ xs) = suc (length xs)

  abbrev pub take : ℕ → List A → List A
  take zero xs = []
  take (suc n) [] = []
  take (suc n) (x ∷ xs) = x ∷ take n xs

  -- How many elements pass the test.
  abbrev pub count_if : (A → Bool) → List A → ℕ
  count_if p [] = 0
  count_if p (x ∷ xs) = (if p x then 1 else 0) + count_if p xs

  -- The first element that passes the test.
  abbrev pub find? : (A → Bool) → List A → Option A
  find? p [] = none
  find? p (x ∷ xs) = if p x then some x else find? p xs

  -- The elements that pass the test.
  abbrev pub keep : (A → Bool) → List A → List A
  keep p [] = []
  keep p (x ∷ xs) = let rest = keep p xs in if p x then x ∷ rest else rest

  abbrev pub any : (A → Bool) → List A → Bool
  any p [] = false
  any p (x ∷ xs) = p x || any p xs

  pub count_if-append :
      (p : A → Bool) (xs ys : List A) → count_if p (xs ++ ys) ≡ count_if p xs + count_if p ys
  count_if-append p [] ys = omega arith
  count_if-append p (x ∷ xs) ys = omega (arith, count_if-append p xs ys)

  -- A positive count has found an element.
  pub any_of_count_if : (p : A → Bool) (xs : List A) → 0 < count_if p xs → any p xs ≡ true
  any_of_count_if p [] h = absurd (omega arith)
  any_of_count_if p (x ∷ xs) h = ground (arith, any_of_count_if p xs)

  -- A test that a change of the elements does not touch.
  pub find?-map :
      (p : A → Bool) (f : A → A) (xs : List A)
      → ((x : A) → p (f x) ≡ p x)
      → find? p (map f xs) ≡ Option.map f (find? p xs)
  find?-map p f [] h = refl
  find?-map p f (x ∷ xs) h = ground (arith, h x, find?-map p f xs h)

  pub count_if-map :
      (p : A → Bool) (f : A → A) (xs : List A)
      → ((x : A) → p (f x) ≡ p x)
      → count_if p (map f xs) ≡ count_if p xs
  count_if-map p f [] h = refl
  count_if-map p f (x ∷ xs) h = ground (arith, h x, count_if-map p f xs h)

  pub any-append : (p : A → Bool) (xs ys : List A) → any p (xs ++ ys) ≡ (any p xs || any p ys)
  any-append p [] ys = refl
  any-append p (x ∷ xs) ys = ground (arith, any-append p xs ys)

  pub any-map :
      (p q : A → Bool) (f : A → A) (xs : List A)
      → ((x : A) → p (f x) ≡ q x)
      → any p (map f xs) ≡ any q xs
  any-map p q f [] h = refl
  any-map p q f (x ∷ xs) h = ground (arith, h x, any-map p q f xs h)

  pub Mem-find? : (p : A → Bool) (xs : List A) {a : A} → find? p xs ≡ some a → Memᴰ a xs
  Mem-find? p [] h = absurd (cc h)
  Mem-find? p (x ∷ xs) h = elim (Bool-cases (p x)) [
    | inl found ↦ Memᴰ.head (ground arith)
    | inr missed ↦ Memᴰ.tail (Mem-find? p xs (ground arith))
  ]

  pub any_of_Mem : (p : A → Bool) (xs : List A) {a : A} → Memᴰ a xs → p a ≡ true → any p xs ≡ true
  any_of_Mem p [] m h = elim m [ ]
  any_of_Mem p (x ∷ xs) (Memᴰ.head e) h = ground arith
  any_of_Mem p (x ∷ xs) (Memᴰ.tail m) h = ground (arith, any_of_Mem p xs m h)

  pub count_if_of_Mem :
      (p : A → Bool) (xs : List A) {a : A} → Memᴰ a xs → p a ≡ true → 0 < count_if p xs
  count_if_of_Mem p [] m h = elim m [ ]
  count_if_of_Mem p (x ∷ xs) (Memᴰ.head e) h = ground arith
  count_if_of_Mem p (x ∷ xs) (Memᴰ.tail m) h = ground (arith, count_if_of_Mem p xs m h)

  pub find?_sound : (p : A → Bool) (xs : List A) {a : A} → find? p xs ≡ some a → p a ≡ true
  find?_sound p [] h = cc
  find?_sound p (x ∷ xs) {a} h = ground (arith, find?_sound p xs {a = a})

  pub length-take-le : (n : ℕ) (xs : List A) → length (take n xs) ≤ n
  length-take-le zero xs = omega arith
  length-take-le (suc n) [] = omega arith
  length-take-le (suc n) (x ∷ xs) = omega (arith, length-take-le n xs)

module _ {ℓ κ} {A : Type ℓ} (P : A → Type κ) where
  abbrev pub All : List A → Type κ
  All [] = Unit
  All (x ∷ xs) = P x × All xs

  pub All-append : (xs ys : List A) → All xs → All ys → All (xs ++ ys)
  All-append [] ys hx hy = hy
  All-append (x ∷ xs) ys hx hy = (hx.0, All-append xs ys hx.1 hy)

-- No element has the key of a later one; `same y x` says that `x` has the key of `y`.
module _ {ℓ} {A : Type ℓ} (same : A → A → Bool) where
  abbrev pub Distinct : List A → Type 0
  Distinct [] = Unit
  Distinct (x ∷ xs) = (any (λ y. same y x) xs ≡ false) × Distinct xs

  pub Distinct-snoc :
      (xs : List A) (r : A) → Distinct xs → any (same r) xs ≡ false → Distinct (xs ++ r ∷ [])
  Distinct-snoc [] r d h = (refl, tt)
  Distinct-snoc (x ∷ xs) r d h = (
    ground (arith, any-append (λ y. same y x) xs (r ∷ []), d.0),
    Distinct-snoc xs r d.1 (ground arith),
  )

  pub Distinct-map :
      (f : A → A) (xs : List A)
      → ((x y : A) → same (f y) (f x) ≡ same y x)
      → Distinct xs
      → Distinct (map f xs)
  Distinct-map f [] h d = tt
  Distinct-map f (x ∷ xs) h d =
      (any-map (λ y. same y (f x)) (λ y. same y x) f xs (h x) ∙ d.0, Distinct-map f xs h d.1)

module _ {ℓ} {A : Type ℓ} where
  pub Mem_of_any :
      (p : A → Bool) (xs : List A) → any p xs ≡ true → (a : A) × Memᴰ a xs × (p a ≡ true)
  Mem_of_any p [] h = absurd (cc h)
  Mem_of_any p (x ∷ xs) h = elim (Bool-cases (p x)) [
    | inl found ↦ (x, Memᴰ.head refl, found)
    | inr missed ↦ let (a, m, found) = Mem_of_any p xs (ground arith) in (a, Memᴰ.tail m, found)
  ]

  -- Two elements of one key are one element.
  pub eq_of_Distinct :
      (same : A → A → Bool) (xs : List A)
      → ((x y : A) → same x y ≡ same y x)
      → Distinct same xs
      → {a b : A} → Memᴰ a xs
      → Memᴰ b xs
      → same a b ≡ true
      → a ≡ b
  eq_of_Distinct same [] comm d m n h = elim m [ ]
  eq_of_Distinct same (x ∷ xs) comm d (Memᴰ.head e) (Memᴰ.head e') h = cc
  eq_of_Distinct same (x ∷ xs) comm d {a} {b} (Memᴰ.head e) (Memᴰ.tail n) h =
      absurd (cc (any_of_Mem (λ y. same y x) xs n (comm b x ∙ rw e at h), d.0))
  eq_of_Distinct same (x ∷ xs) comm d {a} {b} (Memᴰ.tail m) (Memᴰ.head e) h =
      absurd (cc (any_of_Mem (λ y. same y x) xs m (rw e at h), d.0))
  eq_of_Distinct same (x ∷ xs) comm d (Memᴰ.tail m) (Memᴰ.tail n) h =
      eq_of_Distinct same xs comm d.1 m n h
