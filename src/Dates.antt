-- ===== src/Dates.antt =====
-- lib/date-utils.ts and modules/schedule/validation-utils.ts. A `Date` is its distance in
-- milliseconds from the smallest JavaScript date, 100,000,000 days before the epoch, which is a
-- UTC midnight: so a calendar day is a division.
use wafer_fabrication_schedu.Base.{
  ℕ, ◌+◌, ◌-◌, ◌*◌, ◌/◌, Bool, false, Option, none, some, ltb, leb, if◌then◌else◌,
}

abbrev pub Date : Type 0
Date = ℕ

abbrev pub day_ms : ℕ
day_ms = 86400000

-- The day on which an instant falls, and its midnight.
abbrev pub day_of : Date → ℕ
day_of t = t / day_ms

unfoldable pub to_utc_date_only : Date → Date
to_utc_date_only date = day_of date * day_ms

unfoldable pub add_utc_days : Date → ℕ → Date
add_utc_days date days = (day_of date + days) * day_ms

unfoldable pub is_before_date_only : Date → Date → Bool
unfolding to_utc_date_only
is_before_date_only a b = ltb (to_utc_date_only a) (to_utc_date_only b)

-- `none` is an Invalid Date, whose time is NaN: every comparison with it is false.
unfoldable pub calculate_order_deadline : Date → ℕ → ℕ → Option Date
calculate_order_deadline due_date buffer_days production_days =
    if leb (buffer_days + production_days) (day_of due_date)
    then some ((day_of due_date - buffer_days - production_days) * day_ms)
    else none

unfoldable pub calculate_minimum_start_date : Date → ℕ → Date
calculate_minimum_start_date current_date frozen_days =
    (day_of current_date + 1 + frozen_days) * day_ms

-- `a <= b` for a date and a date that may be invalid.
abbrev pub le_date : Date → Option Date → Bool
le_date a none = false
le_date a (some b) = leb a b

-- `setDate(getDate() + days)` keeps the time of day.
unfoldable pub plus_days : Date → ℕ → Date
plus_days date days = date + days * day_ms
