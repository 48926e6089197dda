-- ===== src/Common/LocalDateTime.antt =====
-- libs/common/src/api/local-date-time.ts: the text of an instant, whose trailing parts are left out when
-- they are zero. The components of an instant are those that a JavaScript `Date` gives in UTC.
pub mod Fields
pub mod RoundTrip
pub mod Instants
use Prim.Native.Char.{code}
use Prim.Native.String.{[], ◌∷◌}
use coupon_nestjs.Prelude.{
  ℕ, zero, suc, ◌+◌, ◌-◌, String, Option, none, some, not, ◌||◌, ◌==◌, nat_eq, if◌then◌else◌,
}
use coupon_nestjs.Common.Text.{◌<+>◌, show_nat}

-- `getUTCFullYear()`, `getUTCMonth()` and so on; the month counts from zero.
pub record Utc : Type 0 where
  pub year : ℕ
  pub month : ℕ
  pub date : ℕ
  pub hours : ℕ
  pub minutes : ℕ
  pub seconds : ℕ
  pub milliseconds : ℕ

unfoldable pub text_length : String → ℕ
text_length [] = 0
text_length (c ∷ s) = suc (text_length s)

unfoldable pub zeros : ℕ → String → String
zeros zero s = s
zeros (suc k) s = "0" ∷ zeros k s

-- `s.padStart(width, '0')`: a text that is long enough stays as it is.
unfoldable pub pad_start : ℕ → String → String
pad_start width s = zeros (width - text_length s) s

abbrev pub padded : ℕ → ℕ → String
padded width n = pad_start width (show_nat n)

abbrev pub seconds_text : ℕ → ℕ → String
seconds_text ss ms = if not (ss == 0) || not (ms == 0) then ":" <+> padded 2 ss else ""

abbrev pub milliseconds_text : ℕ → String
milliseconds_text ms = if not (ms == 0) then "." <+> padded 3 ms else ""

unfoldable pub to_local_date_time_string : Utc → String
to_local_date_time_string d =
    padded 4 d.year
    <+> "-"
    <+> padded 2 (d.month + 1)
    <+> "-"
    <+> padded 2 d.date
    <+> "T"
    <+> padded 2 d.hours
    <+> ":"
    <+> padded 2 d.minutes
    <+> seconds_text d.seconds d.milliseconds
    <+> milliseconds_text d.milliseconds

-- `Date.prototype.toISOString`, in the years 0 to 9999.
abbrev pub to_iso_string : Utc → String
to_iso_string d =
    padded 4 d.year
    <+> "-"
    <+> padded 2 (d.month + 1)
    <+> "-"
    <+> padded 2 d.date
    <+> "T"
    <+> padded 2 d.hours
    <+> ":"
    <+> padded 2 d.minutes
    <+> ":"
    <+> padded 2 d.seconds
    <+> "."
    <+> padded 3 d.milliseconds
    <+> "Z"

-- What follows a prefix, if a text has it.
unfoldable pub after_prefix : String → String → Option String
after_prefix [] s = some s
after_prefix (p ∷ ps) [] = none
after_prefix (p ∷ ps) (c ∷ s) =
    let rest = after_prefix ps s in if code c == code p then rest else none

abbrev pub replaced_or : String → String → Option String → String
replaced_or new unchanged none = unchanged
replaced_or new unchanged (some rest) = new <+> rest

-- `s.replace(old, new)`: the first occurrence.
unfoldable pub replace : String → String → String → String
unfolding after_prefix
replace old new [] = replaced_or new [] (after_prefix old [])
replace old new (c ∷ s) = replaced_or new (c ∷ replace old new s) (after_prefix old (c ∷ s))

unfoldable pub to_instant_string : Utc → String
unfolding replace
to_instant_string d =
    if d.milliseconds == 0 then replace ".000Z" "Z" (to_iso_string d) else to_iso_string d
