-- ===== src/Common/CouponCode/Generated.antt =====
-- Generated codes are valid.
use Prim.Native.Char.{code}
use Prim.Native.String.{[], ◌∷◌}
use coupon_nestjs.Prelude.{
  ℕ, zero, suc, ◌+◌, ◌<◌, ◌≡◌, refl, String, Bool, true, ◌&&◌, some, leb, not, nat_eq, ==_refl,
  arith,
}
use coupon_nestjs.Effect.{ok}
use coupon_nestjs.Common.CouponCode.{
  alphabet, units, js_length, includes, check_characters, coupon_code_of, generate_from, generate,
  code_length, nth,
}

size : String → ℕ
size [] = 0
size (c ∷ s) = suc (size s)

includes-nth : (s : String) (d : ℕ) → d < size s → includes s (nth s d) ≡ true
unfolding size
includes-nth [] d h = absurd (omega arith)
includes-nth (c ∷ s) zero h = ground (arith, ==_refl (code c))
includes-nth (c ∷ s) (suc d) h = ground (arith, includes-nth s d)

-- All characters are of the basic plane.
is_basic : String → Bool
is_basic [] = true
is_basic (c ∷ s) = not (leb 0x10000 (code c)) && is_basic s

units-nth : (s : String) (d : ℕ) → is_basic s ≡ true → d < size s → units (nth s d) ≡ 1
unfolding size is_basic
units-nth [] d b h = absurd (omega arith)
units-nth (c ∷ s) zero b h = ground arith
units-nth (c ∷ s) (suc d) b h = ground (arith, units-nth s d)

size-alphabet : size alphabet ≡ 32
unfolding size
size-alphabet = refl

is_basic-alphabet : is_basic alphabet ≡ true
unfolding is_basic
is_basic-alphabet = refl

module _ (draws : ℕ → ℕ) (bound : (i : ℕ) → draws i < 32) where
  js_length-generate_from : (n i : ℕ) → js_length (generate_from draws n i) ≡ n
  unfolding generate_from
  js_length-generate_from zero i = refl
  js_length-generate_from (suc n) i =
      let one = units-nth alphabet (draws i) is_basic-alphabet (rw size-alphabet (bound i)) in
      omega (arith, one, js_length-generate_from n (i + 1))

  check-generate_from :
      (value : String) (n i : ℕ) → check_characters value (generate_from draws n i) ≡ ok value
  unfolding generate_from check_characters
  check-generate_from value zero i = refl
  check-generate_from value (suc n) i = rw (
    includes-nth alphabet (draws i) (rw size-alphabet (bound i)),
    check-generate_from value n (i + 1),
  )

  -- When every drawn number is below the length of the alphabet, the generated code is one that
  -- `CouponCode.of` takes as it is: twelve characters, all of the alphabet.
  pub of-generate : coupon_code_of (some (generate draws)) ≡ ok (generate draws)
  unfolding coupon_code_of generate
  of-generate =
      rw (js_length-generate_from code_length 0)
        (check-generate_from (generate draws) code_length 0)
