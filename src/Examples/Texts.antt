-- ===== src/Examples/Texts.antt =====
-- Texts of instants, and the field errors of a request.
use coupon_nestjs.Prelude.{◌≡◌, refl, none, some, [], ◌∷◌, arith}
use coupon_nestjs.Common.Errors.{FieldError}
use coupon_nestjs.Common.Validation.{Errors, error, nil, cons, flatten_validation_errors}
use coupon_nestjs.Common.Text.{digits, show_nat}
use coupon_nestjs.Common.LocalDateTime.{
  Utc, text_length, zeros, pad_start, after_prefix, replace, to_local_date_time_string,
  to_instant_string,
}
use coupon_nestjs.Common.LocalDateTime.Instants.{read_instant, read-to_instant_string}
use coupon_nestjs.Common.LocalDateTime.RoundTrip.{
  IsInRange, read_local_date_time, read-to_local_date_time_string,
}

abbrev noon : Utc
noon = record {
  year = 2026;
  month = 4;
  date = 10;
  hours = 14;
  minutes = 20;
  seconds = 0;
  milliseconds = 0;
}

noon-IsInRange : IsInRange noon
noon-IsInRange = record {
  year = omega arith;
  month = omega arith;
  date = omega arith;
  hours = omega arith;
  minutes = omega arith;
  seconds = omega arith;
  milliseconds = omega arith;
}

-- The seconds are left out.
noon_text : to_local_date_time_string noon ≡ "2026-05-10T14:20"
unfolding to_local_date_time_string pad_start zeros text_length show_nat digits
noon_text = refl

later_text :
    to_local_date_time_string (record noon { milliseconds = 123 }) ≡ "2026-05-10T14:20:00.123"
unfolding to_local_date_time_string pad_start zeros text_length show_nat digits
later_text = refl

read-to_local_date_time_string_example :
    read_local_date_time (to_local_date_time_string noon) ≡ some noon
read-to_local_date_time_string_example = read-to_local_date_time_string noon noon-IsInRange

instant_text : to_instant_string noon ≡ "2026-05-10T14:20:00Z"
unfolding to_instant_string replace after_prefix pad_start zeros text_length show_nat digits
instant_text = refl

read-to_instant_string_example : read_instant (to_instant_string noon) ≡ some noon
read-to_instant_string_example = read-to_instant_string noon noon-IsInRange

-- A required property is missing, and an object has a property that is no integer.
abbrev two_errors : Errors
two_errors = cons (error "country" (some ("country should not be empty" ∷ [])) nil) (
    cons (error "event" none (cons (error "id" (some ("id must be an integer" ∷ [])) nil) nil)) nil)

abbrev in_event : FieldError
in_event = record { field = "event.id"; message = "id must be an integer" }

flattened :
    flatten_validation_errors "" two_errors
    ≡ record { field = "country"; message = "country should not be empty" } ∷ in_event ∷ []
unfolding flatten_validation_errors
flattened = refl
