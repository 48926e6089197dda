-- ===== src/Common/LocalDateTime/Instants.antt =====
-- The text of an instant, as Kafka messages have it, is read back: java.time's ISO_INSTANT.
use Prim.Native.Char.{Char, code}
use Prim.Native.String.{[], ◌∷◌, ◌++◌}
use coupon_nestjs.Prelude.{
  ℕ, zero, suc, ◌+◌, ◌/◌, ◌%◌, ◌≡◌, ◌<◌, refl, ap, ◌∙◌, sym, inl, inr, Bool-cases, String, Bool,
  false, ◌||◌, Option, none, some, ◌==◌, nat_eq, if◌then◌else◌, arith,
}
use coupon_nestjs.Common.Text.{text_laws, ◌<+>◌, digits, show_nat}
use coupon_nestjs.Common.Requests.RoundTrip.{digit, is_digit-digit}
use coupon_nestjs.Common.LocalDateTime.{
  Utc, text_length, zeros, pad_start, padded, after_prefix, replace, to_instant_string,
}
use coupon_nestjs.Common.LocalDateTime.Fields.{read_field-padded}
use coupon_nestjs.Common.LocalDateTime.RoundTrip.{
  field, expect, with_fraction, date_of, char_text, IsInRange,
}

abbrev has_dot : String → Bool
has_dot [] = false
has_dot (c ∷ s) = code c == 46 || has_dot s

has_dot-digits :
    (fuel n : ℕ) (out : String) → has_dot out ≡ false → has_dot (digits fuel n out) ≡ false
unfolding digits
has_dot-digits zero n out h = h
has_dot-digits (suc fuel) n out h =
    ground (arith, is_digit-digit (n % 10), has_dot-digits fuel (n / 10) (digit (n % 10) ∷ out))

has_dot-zeros : (k : ℕ) (s : String) → has_dot s ≡ false → has_dot (zeros k s) ≡ false
unfolding zeros
has_dot-zeros zero s h = h
has_dot-zeros (suc k) s h = has_dot-zeros k s h

has_dot-padded : (width n : ℕ) → has_dot (padded width n) ≡ false
unfolding pad_start show_nat
has_dot-padded width n = has_dot-zeros _ (digits (n + 1) n "") (has_dot-digits (n + 1) n "" refl)

dot_parts :
    (c : Char) (s : String)
    → has_dot (c ∷ s) ≡ false
    → ((code c == 46) ≡ false) × (has_dot s ≡ false)
dot_parts c s h = ground arith

has_dot-append : (s t : String) → has_dot (s ++ t) ≡ (has_dot s || has_dot t)
has_dot-append [] t = simp text_laws refl
has_dot-append (c ∷ s) t = simp text_laws (ground (arith, has_dot-append s t))

-- What has no dot stays as it is.
replace-after :
    (s t : String) → has_dot s ≡ false → replace ".000Z" "Z" (s ++ t) ≡ s ++ replace ".000Z" "Z" t
unfolding replace after_prefix
replace-after [] t h = simp text_laws refl
replace-after (c ∷ s) t h =
    let (here, rest) = dot_parts c s h in
    simp (text_laws, here) (ap (λ x. c ∷ x) (replace-after s t rest))

-- The text up to the seconds, without trailing parts.
abbrev head : Utc → String
head d =
    padded 4 d.year
    <+> "-"
    <+> padded 2 (d.month + 1)
    <+> "-"
    <+> padded 2 d.date
    <+> "T"
    <+> padded 2 d.hours
    <+> ":"
    <+> padded 2 d.minutes
    <+> ":"
    <+> padded 2 d.seconds

has_dot-head : (d : Utc) → has_dot (head d) ≡ false
has_dot-head d = simp (has_dot-append, has_dot-padded) refl

abbrev zone_text : ℕ → String
zone_text ms = if ms == 0 then "Z" else "." <+> padded 3 ms <+> "Z"

head-append :
    (d : Utc) (rest : String)
    → head d ++ rest
      ≡ padded 4 d.year
        <+> "-"
        <+> padded 2 (d.month + 1)
        <+> "-"
        <+> padded 2 d.date
        <+> "T"
        <+> padded 2 d.hours
        <+> ":"
        <+> padded 2 d.minutes
        <+> ":"
        <+> padded 2 d.seconds
        <+> rest
head-append d rest = simp text_laws refl

no_fraction : replace ".000Z" "Z" ("." <+> padded 3 0 <+> "Z") ≡ "Z"
unfolding replace after_prefix pad_start zeros text_length show_nat digits
no_fraction = refl

instant_text : (d : Utc) → to_instant_string d ≡ head d ++ zone_text d.milliseconds
unfolding to_instant_string
instant_text d = elim (Bool-cases (d.milliseconds == 0)) [
  | inl whole ↦
      let same : d.milliseconds ≡ 0 = nat_eq.eq_of_same d.milliseconds 0 whole in
      rw (sym (head-append d ("." <+> padded 3 d.milliseconds <+> "Z")), same)
        (replace-after (head d) ("." <+> padded 3 0 <+> "Z") (has_dot-head d)
          ∙ ap (λ t. head d ++ t) no_fraction)
  | inr part ↦ rw part (sym (head-append d ("." <+> padded 3 d.milliseconds <+> "Z")))
]

-- The fraction of a second, if there is one, and the Z at the end.
abbrev read_zone : String → Option ℕ
read_zone [] = none
read_zone (c ∷ s) =
    let fraction = expect "." (c ∷ s) λ s.
      field 3 s
        λ ms rest. expect "Z" rest λ rest. if text_length rest == 0 then some ms else none in
    if code c == 90 then (if text_length s == 0 then some 0 else none) else fraction

-- What Java reads.
abbrev pub read_instant : String → Option Utc
read_instant s = field 4 s λ year s. expect "-" s λ s. field 2 s λ month s. expect "-" s λ s.
    field 2 s λ date s. expect "T" s λ s. field 2 s λ hours s. expect ":" s λ s.
      field 2 s λ minutes s. expect ":" s λ s.
        field 2 s
          λ seconds s. date_of year month date hours minutes (with_fraction seconds (read_zone s))

read_zone-text : (ms : ℕ) → ms < 1000 → read_zone (zone_text ms) ≡ some ms
unfolding text_length
read_zone-text ms small = elim (Bool-cases (ms == 0)) [
  | inl whole ↦
      let zero_there : 0 ≡ ms = sym (nat_eq.eq_of_same ms 0 whole) in rw whole (ap some zero_there)
  | inr part ↦
      rw
        (
          part,
          char_text "." (padded 3 ms <+> "Z"),
          read_field-padded 2 ms "Z" (omega (arith, small)),
        )
        refl
]

-- The text of an instant is read back.
pub read-to_instant_string : (d : Utc) → IsInRange d → read_instant (to_instant_string d) ≡ some d
read-to_instant_string d r =
    let zone = zone_text d.milliseconds in
    let seconds = padded 2 d.seconds <+> zone in
    let minutes = padded 2 d.minutes <+> ":" <+> seconds in
    let hours = padded 2 d.hours <+> ":" <+> minutes in
    let date = padded 2 d.date <+> "T" <+> hours in
    let month = padded 2 (d.month + 1) <+> "-" <+> date in
    let from_one : d.month + 1 ≡ suc d.month = omega arith in
    rw
      (
        instant_text d ∙ head-append d zone,
        read_field-padded 3 d.year ("-" <+> month) (omega (arith, r.year)),
        char_text "-" month,
        read_field-padded 1 (d.month + 1) ("-" <+> date) (omega (arith, r.month)),
        char_text "-" date,
        read_field-padded 1 d.date ("T" <+> hours) (omega (arith, r.date)),
        char_text "T" hours,
        read_field-padded 1 d.hours (":" <+> minutes) (omega (arith, r.hours)),
        char_text ":" minutes,
        read_field-padded 1 d.minutes (":" <+> seconds) (omega (arith, r.minutes)),
        char_text ":" seconds,
        read_field-padded 1 d.seconds zone (omega (arith, r.seconds)),
        read_zone-text d.milliseconds r.milliseconds,
        from_one,
      )
      refl
