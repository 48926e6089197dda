-- ===== src/Common/Requests/RoundTrip.antt =====
-- What one server writes into a path or a header, the next one reads back.
use mathlib.Core.Option
use Prim.Native.Char.{Char, code}
use Prim.Native.String.{[], ◌∷◌, char_at}
use coupon_nestjs.Prelude.{
  ℕ, zero, suc, ◌+◌, ◌*◌, ◌-◌, ◌/◌, ◌%◌, ◌<◌, ◌≡◌, refl, ap, ◌∙◌, ℤ, pos, negsuc, String, true,
  some, nat_eq, arith,
}
use coupon_nestjs.Common.Text.{digits, show_nat, show_int}
use coupon_nestjs.Effect.{ok}
use coupon_nestjs.Common.Requests.{
  is_digit, read_digits, read_unsigned, negated, read_long, is_exact, number_of, user_id_of,
  parse_long,
}

abbrev pub digit : ℕ → Char
digit d = char_at "0123456789" d

pub is_digit-digit : (d : ℕ) → d < 10 → (is_digit (digit d) ≡ true) × (code (digit d) - 48 ≡ d)
is_digit-digit zero h = (refl, refl)
is_digit-digit (suc zero) h = (refl, refl)
is_digit-digit (suc (suc zero)) h = (refl, refl)
is_digit-digit (suc (suc (suc zero))) h = (refl, refl)
is_digit-digit (suc (suc (suc (suc zero)))) h = (refl, refl)
is_digit-digit (suc (suc (suc (suc (suc zero))))) h = (refl, refl)
is_digit-digit (suc (suc (suc (suc (suc (suc zero)))))) h = (refl, refl)
is_digit-digit (suc (suc (suc (suc (suc (suc (suc zero))))))) h = (refl, refl)
is_digit-digit (suc (suc (suc (suc (suc (suc (suc (suc zero)))))))) h = (refl, refl)
is_digit-digit (suc (suc (suc (suc (suc (suc (suc (suc (suc zero))))))))) h = (refl, refl)
is_digit-digit (suc (suc (suc (suc (suc (suc (suc (suc (suc (suc d)))))))))) h =
    absurd (omega arith)

read-digit :
    (n d : ℕ) (out : String) → d < 10 → read_digits n (digit d ∷ out) ≡ read_digits (n * 10 + d) out
unfolding read_digits
read-digit n d out h = let r = is_digit-digit d h in rw (r.0, r.1) refl

read_digits-digits :
    (fuel n : ℕ) (out : String) → n < fuel → read_digits 0 (digits fuel n out) ≡ read_digits n out
unfolding digits
read_digits-digits zero n out h = absurd (omega arith)
read_digits-digits (suc fuel) n out h = ground (
  arith,
  read-digit 0 (n % 10) out,
  read-digit (n / 10) (n % 10) out,
  read_digits-digits fuel (n / 10) (digit (n % 10) ∷ out),
)

Starts : String → Type 0
Starts [] = ⊥
Starts (c ∷ s) = is_digit c ≡ true

Starts-digits : (fuel n : ℕ) (out : String) → Starts out → Starts (digits fuel n out)
unfolding digits Starts
Starts-digits zero n out h = h
Starts-digits (suc fuel) n out h =
    ground (arith, is_digit-digit (n % 10), Starts-digits fuel (n / 10) (digit (n % 10) ∷ out))

Starts-show_nat : (n : ℕ) → Starts (show_nat n)
unfolding Starts show_nat digits
Starts-show_nat n =
    ground (arith, is_digit-digit (n % 10), Starts-digits n (n / 10) (digit (n % 10) ∷ []))

read_digits-show_nat : (n : ℕ) → read_digits 0 (show_nat n) ≡ some n
unfolding show_nat read_digits
read_digits-show_nat n = read_digits-digits (n + 1) n "" (omega arith)

read_unsigned-Starts : (s : String) → Starts s → read_unsigned s ≡ read_digits 0 s
unfolding Starts
read_unsigned-Starts [] h = elim h [ ]
read_unsigned-Starts (c ∷ s) h = refl

read_long-Starts : (s : String) → Starts s → read_long s ≡ Option.map pos (read_digits 0 s)
unfolding Starts read_long
read_long-Starts [] h = elim h [ ]
read_long-Starts (c ∷ s) h = ground arith

read_unsigned-show_nat : (n : ℕ) → read_unsigned (show_nat n) ≡ some n
read_unsigned-show_nat n =
    rw (read_unsigned-Starts (show_nat n) (Starts-show_nat n)) (read_digits-show_nat n)

read_long-minus : (s : String) → read_long ("-" ∷ s) ≡ Option.map negated (read_unsigned s)
unfolding read_long
read_long-minus s = refl

-- An integer is read back from its decimal print.
pub read_long-show_int : (n : ℤ) → read_long (show_int n) ≡ some n
unfolding show_int
read_long-show_int (pos n) =
    rw (read_long-Starts (show_nat n) (Starts-show_nat n), read_digits-show_nat n) refl
read_long-show_int (negsuc n) =
    read_long-minus (show_nat (suc n)) ∙ ap (Option.map negated) (read_unsigned-show_nat (suc n))

module _ (rounded : ℤ → ℤ) where
  user_id_of-read :
      (s : String) (n : ℤ)
      → read_long s ≡ some n
      → user_id_of rounded (some s) ≡ ok (number_of rounded n)
  unfolding user_id_of read_long
  user_id_of-read [] n h = absurd (cc h)
  user_id_of-read (c ∷ s) n h = rw h refl

  -- The identifier that a server writes into the X-User-Id header or into a path is the one that the
  -- next server reads, as long as its magnitude is at most 2^53.
  pub read_back :
      (n : ℤ) (name : String)
      → is_exact n ≡ true
      → (user_id_of rounded (some (show_int n)) ≡ ok n)
        × (parse_long rounded (some name) (some (show_int n)) ≡ ok n)
  unfolding parse_long
  read_back n name h = (
    user_id_of-read (show_int n) n (read_long-show_int n) ∙ rw h refl,
    rw (read_long-show_int n, h) refl,
  )
