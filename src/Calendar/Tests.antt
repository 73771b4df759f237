-- ===== src/Calendar/Tests.antt =====
-- The calendar at known dates, and the theorems at concrete inputs.
use veckomenyn.Base.{◌≡◌, refl, false, arith, ◌+◌, ◌-◌, ◌*◌, none, some, text, show}
use veckomenyn.Api.Http.{pos, negsuc}
use veckomenyn.Calendar.{
  Date, date_of, day_of, first_of, get_day, format_iso, parse_iso, year_start, month_start,
  month_length, last_at_most,
}
use veckomenyn.Calendar.Iso.{parse_iso-format_iso}
use veckomenyn.Calendar.Days.{IsDate}
use veckomenyn.Calendar.Month.{leading_of, build_month}
use veckomenyn.Calendar.Grid.{cells_from, build_month_lem}
use veckomenyn.Calendar.Plans.{add_days, days_between, DuplicateDialog, duplicate_end}
use veckomenyn.Calendar.Periods.{duplicate_end-days_between}

abbrev leap_eve : Date
leap_eve = record { year = 2024; month = 1; date = 28 }

-- The first of January 2024 was a Monday.
get_day_monday : get_day (first_of (12 * 2024)) ≡ 1
unfolding first_of year_start month_start
get_day_monday = refl

add_days_leap : add_days (text "2024-02-28") (pos 2) ≡ text "2024-03-01"
unfolding add_days parse_iso format_iso date_of first_of year_start month_start month_length
    last_at_most show
add_days_leap = refl

days_between_back : days_between (text "2026-01-01") (text "2025-12-31") ≡ some (negsuc 0)
unfolding days_between parse_iso first_of year_start month_start month_length
days_between_back = refl

parse_iso_long_february : parse_iso (text "2025-02-29") ≡ none
unfolding parse_iso month_length
parse_iso_long_february = refl

leap_eve-IsDate : IsDate leap_eve
unfolding month_length
leap_eve-IsDate = (omega arith, omega arith, omega arith)

parse_iso-format_iso_example : parse_iso (format_iso leap_eve) ≡ some leap_eve
parse_iso-format_iso_example =
    parse_iso-format_iso leap_eve leap_eve-IsDate (omega arith) (omega arith)

build_month_lem_example :
    let first = first_of (12 * 2024 + 1) in
    (build_month 2024 1 ≡ cells_from (first - leading_of first) 42)
    × (get_day (first - leading_of first) ≡ 1)
build_month_lem_example = build_month_lem 2024 1 (omega arith) (omega arith)

-- New Year's Eve, and a week from then on
abbrev eve : Date
eve = record { year = 2025; month = 11; date = 31 }

parse_iso-eve : parse_iso (text "2025-12-31") ≡ some eve
unfolding parse_iso month_length
parse_iso-eve = refl

day_of-eve : day_of eve ≡ 739981
unfolding first_of year_start month_start month_length
day_of-eve = refl

years : (year_start 1000 ≡ 365243) × (year_start 10000 ≡ 3652425)
unfolding year_start
years = (refl, refl)

abbrev dialog : DuplicateDialog
dialog = record {
  source_start = text "2024-02-28";
  source_end = text "2024-03-05";
  start_date = text "2025-12-31";
  busy = false;
}

source_days : days_between dialog.source_start dialog.source_end ≡ some (pos 6)
unfolding days_between parse_iso first_of year_start month_start month_length
source_days = refl

duplicate_end-days_between_example :
    days_between dialog.start_date (duplicate_end dialog)
    ≡ days_between dialog.source_start dialog.source_end
duplicate_end-days_between_example =
    duplicate_end-days_between dialog eve 6 source_days parse_iso-eve
      (omega (arith, years, day_of-eve), omega (arith, years, day_of-eve))
