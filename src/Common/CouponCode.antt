-- ===== src/Common/CouponCode.antt =====
-- libs/common/src/coupon/coupon-code.ts: the code of a coupon.
pub mod Generated
use Prim.Native.Char.{Char, code, nul}
use Prim.Native.String.{[], ◌∷◌}
use coupon_nestjs.Prelude.{
  ℕ, zero, suc, ◌+◌, String, Bool, false, ◌||◌, Option, none, some, leb, ◌==◌, nat_eq,
  if◌then◌else◌,
}
use coupon_nestjs.Common.Errors.{Exception, common, plain, invalid_argument}
use coupon_nestjs.Common.Text.{◌<+>◌, show_nat}
use coupon_nestjs.Effect.{Result, ok, thrown}

abbrev pub code_length : ℕ
code_length = 12

-- 32 characters.
abbrev pub alphabet : String
alphabet = "ABCDEFGHJKMNPQRSTVWXYZ0123456789"

-- The length of a JavaScript string: a character outside the basic plane counts two units.
abbrev pub units : Char → ℕ
units c = if leb 0x10000 (code c) then 2 else 1

abbrev pub js_length : String → ℕ
js_length [] = 0
js_length (c ∷ s) = units c + js_length s

-- `ALPHABET.includes(ch)`
abbrev pub includes : String → Char → Bool
includes [] c = false
includes (d ∷ s) c = code d == code c || includes s c

-- The loop over the characters of `value`.
unfoldable pub check_characters : String → String → Result String
check_characters value [] = ok value
check_characters value (c ∷ s) =
    let rest = check_characters value s in
    if includes alphabet c
    then rest
    else thrown (common (invalid_argument ("couponCode contains invalid character: " <+> (c ∷ []))))

-- `CouponCode.of`
unfoldable pub coupon_code_of : Option String → Result String
coupon_code_of none = thrown (plain "couponCode value must not be null")
coupon_code_of (some value) =
    if js_length value == code_length
    then check_characters value value
    else thrown (
        common (
          invalid_argument (
            "couponCode length must be "
            <+> show_nat code_length
            <+> " but was "
            <+> show_nat (js_length value))))

-- `s[i]`; the drawn numbers are below the alphabet's length, so that the end is never met.
abbrev pub nth : String → ℕ → Char
nth [] i = nul
nth (c ∷ s) zero = c
nth (c ∷ s) (suc i) = nth s i

-- The rounds that are left; the i-th one takes the number that `randomInt` draws in it.
unfoldable pub generate_from : (ℕ → ℕ) → ℕ → ℕ → String
generate_from draws zero i = []
generate_from draws (suc n) i = nth alphabet (draws i) ∷ generate_from draws n (i + 1)

-- `CouponCode.generate`
unfoldable pub generate : (ℕ → ℕ) → String
generate draws = generate_from draws code_length 0
