-- ===== src/Common/Requests.antt =====
-- libs/common/src/api/parse-long.pipe.ts and user-id.decorator.ts: the numbers in the path and in the
-- X-User-Id header of a request.
pub mod RoundTrip
use mathlib.Core.Option
use Prim.Native.Char.{Char, code}
use Prim.Native.String.{[], ◌∷◌}
use coupon_nestjs.Prelude.{
  ℕ, zero, suc, ◌+◌, ◌*◌, ◌-◌, ℤ, pos, negsuc, String, Bool, ◌&&◌, Option, none, some, leb, ◌==◌,
  nat_eq, if◌then◌else◌,
}
use coupon_nestjs.Common.Errors.{common, missing_header, type_mismatch}
use coupon_nestjs.Effect.{Result, ok, thrown}

-- `\d`
abbrev pub is_digit : Char → Bool
is_digit c = leb 48 (code c) && leb (code c) 57

-- The digits after those that make `n`.
unfoldable pub read_digits : ℕ → String → Option ℕ
read_digits n [] = some n
read_digits n (c ∷ s) =
    let rest = read_digits (n * 10 + (code c - 48)) s in if is_digit c then rest else none

-- `\d+`
abbrev pub read_unsigned : String → Option ℕ
read_unsigned [] = none
read_unsigned (c ∷ s) = read_digits 0 (c ∷ s)

abbrev pub negated : ℕ → ℤ
negated zero = pos 0
negated (suc n) = negsuc n

-- The integer that a text matching LONG_PATTERN writes.
unfoldable pub read_long : String → Option ℤ
unfolding read_digits
read_long [] = none
read_long (c ∷ s) =
    if code c == 45
    then Option.map negated (read_unsigned s)
    else if code c == 43
    then Option.map pos (read_unsigned s)
    else Option.map pos (read_unsigned (c ∷ s))

-- Number.MAX_SAFE_INTEGER + 1: up to it, an integer is a JavaScript number.
abbrev pub max_exact : ℕ
max_exact = 9007199254740992

abbrev pub is_exact : ℤ → Bool
is_exact (pos n) = leb n max_exact
is_exact (negsuc n) = leb (n + 1) max_exact

-- `rounded` is the JavaScript number nearest to an integer beyond that.
module _ (rounded : ℤ → ℤ) where
  abbrev pub number_of : ℤ → ℤ
  number_of n = if is_exact n then n else rounded n

  abbrev pub number_or_mismatch : String → Option ℤ → Result ℤ
  number_or_mismatch name none = thrown (common (type_mismatch name))
  number_or_mismatch name (some n) = ok (number_of n)

  abbrev pub parse_named : String → Option String → Result ℤ
  parse_named name none = thrown (common (type_mismatch name))
  parse_named name (some value) = number_or_mismatch name (read_long value)

  -- `ParseLongPipe.transform`
  unfoldable pub parse_long : Option String → Option String → Result ℤ
  parse_long none value = parse_named "argument" value
  parse_long (some name) value = parse_named name value

  -- The `UserId` decorator, on the header's first value.
  unfoldable pub user_id_of : Option String → Result ℤ
  user_id_of none = thrown (common (missing_header "X-User-Id"))
  user_id_of (some []) = thrown (common (missing_header "X-User-Id"))
  user_id_of (some (c ∷ s)) = number_or_mismatch "userId" (read_long (c ∷ s))
