-- ===== src/Common/LocalDateTime/Fields.antt =====
-- A number that is padded to a width is read back from its text.
use Prim.Native.Char.{code}
use Prim.Native.String.{[], ◌∷◌, ◌++◌}
use text.Mathlib.TextLemmas.{nil-append, cons-append}
use coupon_nestjs.Prelude.{
  ℕ, zero, suc, ◌+◌, ◌-◌, ◌*◌, ◌/◌, ◌%◌, ◌≡◌, ◌<◌, ◌≤◌, refl, ap, ◌∙◌, inl, inr, Bool-cases, String,
  Option, none, some, ltb, if◌then◌else◌, arith,
}
use coupon_nestjs.Common.Text.{text_laws, digits, show_nat}
use coupon_nestjs.Common.Requests.{is_digit}
use coupon_nestjs.Common.Requests.RoundTrip.{digit, is_digit-digit}
use coupon_nestjs.Common.LocalDateTime.{text_length, zeros, pad_start, padded}

-- The number that the next digits write, so many of them, after those that make `n`, and the rest.
unfoldable pub read_field : ℕ → ℕ → String → Option (ℕ × String)
read_field zero n s = some (n, s)
read_field (suc width) n [] = none
read_field (suc width) n (c ∷ s) =
    let rest = read_field width (n * 10 + (code c - 48)) s in if is_digit c then rest else none

-- How many digits a number has.
unfoldable digit_count : ℕ → ℕ → ℕ
digit_count zero n = 0
digit_count (suc fuel) n = let rest = digit_count fuel (n / 10) in if ltb n 10 then 1 else suc rest

-- The number of texts of so many digits.
abbrev pub ten_to : ℕ → ℕ
ten_to zero = 1
ten_to (suc k) = 10 * ten_to k

digit_count-le : (fuel n width : ℕ) → n < ten_to (suc width) → digit_count fuel n ≤ suc width
unfolding digit_count
digit_count-le zero n width small = omega arith
digit_count-le (suc fuel) n zero small = ground arith
digit_count-le (suc fuel) n (suc width) small =
    let shorter : n / 10 < ten_to (suc width) = omega (arith, small) in
    ground (arith, digit_count-le fuel (n / 10) width shorter)

read_field-digit :
    (width n d : ℕ) (out : String)
    → d < 10
    → read_field (suc width) n (digit d ∷ out) ≡ read_field width (n * 10 + d) out
unfolding read_field
read_field-digit width n d out h = let r = is_digit-digit d h in rw (r.0, r.1) refl

read_field-digits :
    (fuel n width : ℕ) (out : String)
    → n < fuel
    → read_field (digit_count fuel n + width) 0 (digits fuel n out) ≡ read_field width n out
unfolding digits digit_count
read_field-digits zero n width out h = absurd (omega arith)
read_field-digits (suc fuel) n width out h = elim (Bool-cases (ltb n 10)) [
  | inl small ↦
      let one : 1 + width ≡ suc width = omega arith in
      let itself : 0 * 10 + n % 10 ≡ n = ground arith in
      rw (small, one)
        (read_field-digit width 0 (n % 10) out (omega arith)
          ∙ ap (λ k. read_field width k out) itself)
  | inr large ↦
      let c = digit_count fuel (n / 10) in
      let later : suc c + width ≡ c + suc width = omega arith in
      let shorter : n / 10 < fuel = ground arith in
      let itself : n / 10 * 10 + n % 10 ≡ n = omega arith in
      rw (large, later)
        (read_field-digits fuel (n / 10) (suc width) (digit (n % 10) ∷ out) shorter
          ∙ read_field-digit width (n / 10) (n % 10) out (omega arith)
          ∙ ap (λ k. read_field width k out) itself)
]

text_length-digits :
    (fuel n : ℕ) (out : String)
    → text_length (digits fuel n out) ≡ digit_count fuel n + text_length out
unfolding text_length digits digit_count
text_length-digits zero n out = omega arith
text_length-digits (suc fuel) n out =
    ground (arith, text_length-digits fuel (n / 10) (digit (n % 10) ∷ out))

digits-append :
    (fuel n : ℕ) (out rest : String) → digits fuel n out ++ rest ≡ digits fuel n (out ++ rest)
unfolding digits
digits-append zero n out rest = refl
digits-append (suc fuel) n out rest = elim (Bool-cases (ltb n 10)) [
  | inl small ↦ simp (small, text_laws) refl
  | inr large ↦ rw large (
      digits-append fuel (n / 10) (digit (n % 10) ∷ out) rest
      ∙ ap (digits fuel (n / 10)) (cons-append (digit (n % 10)) out rest))
]

zeros-append : (k : ℕ) (s rest : String) → zeros k s ++ rest ≡ zeros k (s ++ rest)
unfolding zeros
zeros-append zero s rest = refl
zeros-append (suc k) s rest =
    cons-append "0" (zeros k s) rest ∙ ap (λ t. "0" ∷ t) (zeros-append k s rest)

read_field-zeros :
    (k width : ℕ) (s : String) → read_field (k + width) 0 (zeros k s) ≡ read_field width 0 s
unfolding read_field zeros
read_field-zeros zero width s = let none_more : 0 + width ≡ width = omega arith in rw none_more refl
read_field-zeros (suc k) width s =
    let one_more : suc k + width ≡ suc (k + width) = omega arith in
    rw one_more (read_field-zeros k width s)

-- A number that has no more digits than the width is read back from its padded text, and what comes
-- after it is left.
pub read_field-padded :
    (width n : ℕ) (rest : String)
    → n < ten_to (suc width)
    → read_field (suc width) 0 (padded (suc width) n ++ rest) ≡ some (n, rest)
unfolding pad_start show_nat read_field text_length
read_field-padded width n rest small =
    let s = digits (n + 1) n "" in
    let c = digit_count (n + 1) n in
    let k = suc width - text_length s in
    let length : text_length s ≡ c + 0 = text_length-digits (n + 1) n "" in
    let whole : suc width ≡ k + (c + 0) =
      omega (arith, length, digit_count-le (n + 1) n width small) in
    ap (read_field (suc width) 0) (zeros-append k s rest)
    ∙ ap (λ w. read_field w 0 (zeros k (s ++ rest))) whole
    ∙ read_field-zeros k (c + 0) (s ++ rest)
    ∙ ap (read_field (c + 0) 0)
        (digits-append (n + 1) n "" rest ∙ ap (digits (n + 1) n) (nil-append rest))
    ∙ read_field-digits (n + 1) n 0 rest (omega arith)
