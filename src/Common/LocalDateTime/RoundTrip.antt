-- ===== src/Common/LocalDateTime/RoundTrip.antt =====
-- The text of an instant says which instant it is: java.time's ISO_LOCAL_DATE_TIME, which leaves out
-- the seconds and their fraction when they are zero, is read back.
use Prim.Native.Char.{Char, code}
use Prim.Native.String.{[], ◌∷◌, ◌++◌}
use text.Mathlib.TextLemmas.{append-nil, append_assoc}
use coupon_nestjs.Prelude.{
  ℕ, zero, suc, ◌+◌, ◌≡◌, ◌<◌, refl, ap, sym, false, not, ◌||◌, ◌∙◌, inl, inr, Bool-cases, String,
  Option, none, some, ◌==◌, nat_eq, if◌then◌else◌, arith,
}
use coupon_nestjs.Common.Text.{text_laws, ◌<+>◌}
use coupon_nestjs.Common.LocalDateTime.{
  Utc, text_length, padded, seconds_text, milliseconds_text, to_local_date_time_string,
}
use coupon_nestjs.Common.LocalDateTime.Fields.{read_field, read_field-padded}

module _ {A : Type 0} where
  abbrev pub with_read : Option (ℕ × String) → (ℕ → String → Option A) → Option A
  with_read none next = none
  with_read (some (n, s)) next = next n s

  -- A number of so many digits, and what follows.
  abbrev pub field : ℕ → String → (ℕ → String → Option A) → Option A
  field width s next = with_read (read_field width 0 s) next

  -- One character, and what follows.
  abbrev pub expect : Char → String → (String → Option A) → Option A
  expect c [] next = none
  expect c (c' ∷ s) next = let rest = next s in if code c' == code c then rest else none

pub char_text : (c : Char) (rest : String) → (c ∷ []) ++ rest ≡ c ∷ rest
char_text c rest = simp text_laws refl

-- The fraction of a second.
abbrev read_fraction : String → Option ℕ
read_fraction [] = some 0
read_fraction (c ∷ s) =
    expect "." (c ∷ s) λ s. field 3 s λ ms rest. if text_length rest == 0 then some ms else none

abbrev pub with_fraction : ℕ → Option ℕ → Option (ℕ × ℕ)
with_fraction ss none = none
with_fraction ss (some ms) = some (ss, ms)

-- The seconds with their fraction.
abbrev read_seconds : String → Option (ℕ × ℕ)
read_seconds [] = some (0, 0)
read_seconds (c ∷ s) =
    expect ":" (c ∷ s) λ s. field 2 s λ ss rest. with_fraction ss (read_fraction rest)

abbrev pub date_of : ℕ → ℕ → ℕ → ℕ → ℕ → Option (ℕ × ℕ) → Option Utc
date_of year zero date hours minutes time = none
date_of year (suc month) date hours minutes none = none
date_of year (suc month) date hours minutes (some (ss, ms)) = some (record {
  year = year;
  month = month;
  date = date;
  hours = hours;
  minutes = minutes;
  seconds = ss;
  milliseconds = ms;
})

-- What Java reads.
abbrev pub read_local_date_time : String → Option Utc
read_local_date_time s = field 4 s λ year s. expect "-" s λ s. field 2 s λ month s.
    expect "-" s λ s. field 2 s λ date s. expect "T" s λ s. field 2 s λ hours s.
      expect ":" s
        λ s. field 2 s λ minutes s. date_of year month date hours minutes (read_seconds s)

-- The components of an instant of the years 0 to 9999.
pub record IsInRange (d : Utc) : Type 0 where
  pub year : d.year < 10000
  pub month : d.month < 12
  pub date : d.date < 32
  pub hours : d.hours < 24
  pub minutes : d.minutes < 60
  pub seconds : d.seconds < 60
  pub milliseconds : d.milliseconds < 1000

read_fraction-text : (ms : ℕ) → ms < 1000 → read_fraction (milliseconds_text ms) ≡ some ms
unfolding text_length
read_fraction-text ms small = elim (Bool-cases (ms == 0)) [
  | inl none_there ↦
      let zero_there : 0 ≡ ms = sym (nat_eq.eq_of_same ms 0 none_there) in
      rw none_there (ap some zero_there)
  | inr some_there ↦
      let text : padded 3 ms ≡ padded 3 ms ++ "" = sym (append-nil (padded 3 ms)) in
      rw some_there (
        ap read_fraction (char_text "." (padded 3 ms))
        ∙ ap (λ t. field 3 t λ ms rest. if text_length rest == 0 then some ms else none) text
        ∙ ap (λ o. with_read o λ ms rest. if text_length rest == 0 then some ms else none)
            (read_field-padded 2 ms "" (omega (arith, small))))
]

no_time : (ss ms : ℕ) → (not (ss == 0) || not (ms == 0)) ≡ false → (ss ≡ 0) × (ms ≡ 0)
no_time ss ms h = ground arith

read_seconds-text :
    (ss ms : ℕ)
    → ss < 60
    → ms < 1000
    → read_seconds (seconds_text ss ms <+> milliseconds_text ms) ≡ some (ss, ms)
read_seconds-text ss ms small small' = elim (Bool-cases (not (ss == 0) || not (ms == 0))) [
  | inl there ↦
      let rest = milliseconds_text ms in
      rw there (
        ap read_seconds (append_assoc ":" (padded 2 ss) rest ∙ char_text ":" (padded 2 ss ++ rest))
        ∙ ap (λ o. with_read o λ ss rest. with_fraction ss (read_fraction rest))
            (read_field-padded 1 ss rest (omega (arith, small)))
        ∙ ap (with_fraction ss) (read_fraction-text ms small'))
  | inr absent ↦ let both : (ss ≡ 0) × (ms ≡ 0) = no_time ss ms absent in rw (both.0, both.1) refl
]

-- The text of an instant is read back, and so two instants have different texts.
pub read-to_local_date_time_string :
    (d : Utc) → IsInRange d → read_local_date_time (to_local_date_time_string d) ≡ some d
unfolding to_local_date_time_string
read-to_local_date_time_string d r =
    let time = seconds_text d.seconds d.milliseconds <+> milliseconds_text d.milliseconds in
    let minutes = padded 2 d.minutes <+> time in
    let hours = padded 2 d.hours <+> ":" <+> minutes in
    let date = padded 2 d.date <+> "T" <+> hours in
    let month = padded 2 (d.month + 1) <+> "-" <+> date in
    let from_one : d.month + 1 ≡ suc d.month = omega arith in
    rw
      (
        read_field-padded 3 d.year ("-" <+> month) (omega (arith, r.year)),
        char_text "-" month,
        read_field-padded 1 (d.month + 1) ("-" <+> date) (omega (arith, r.month)),
        char_text "-" date,
        read_field-padded 1 d.date ("T" <+> hours) (omega (arith, r.date)),
        char_text "T" hours,
        read_field-padded 1 d.hours (":" <+> minutes) (omega (arith, r.hours)),
        char_text ":" minutes,
        read_field-padded 1 d.minutes time (omega (arith, r.minutes)),
        read_seconds-text d.seconds d.milliseconds r.seconds r.milliseconds,
        from_one,
      )
      refl
