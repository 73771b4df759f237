-- ===== src/Calendar.antt =====
-- Dates as the program uses `Date`: local midnights, in the proleptic Gregorian calendar. A day is the number
-- of days since the first of January of the year 0; a month its number since then; both are ECMA-262's
-- `MakeDay` with another origin. Years from 1000 to 9999 print with four digits.
pub mod Search
pub mod Days
pub mod Iso
pub mod Month
pub mod Grid
pub mod Shift
pub mod Plans
pub mod Periods
mod Tests
use veckomenyn.Base.{
  ℕ, zero, suc, ◌+◌, ◌-◌, ◌*◌, ◌/◌, ◌%◌, Bool, true, false, not, ◌&&◌, ◌||◌, ◌==◌, leb, ltb, Option,
  none, some, List, [], ◌∷◌, ◌++◌, Text, text, show, length, is_digit, all, value, if◌then◌else◌,
}

pub record Date : Type 0 where
  pub year : ℕ
  pub month : ℕ
  pub date : ℕ

abbrev pub is_leap : ℕ → Bool
is_leap y = y % 4 == 0 && (not (y % 100 == 0) || y % 400 == 0)

abbrev pub leap_day : Bool → ℕ
leap_day true = 1
leap_day false = 0

-- The days from the first of January of the year 0 to that of `y`.
unfoldable pub year_start : ℕ → ℕ
year_start y = (365 * y + (y + 3) / 4 + (y + 399) / 400) - (y + 99) / 100

-- The days of the months from 0 to 11; there are no more.
unfoldable pub month_length : Bool → ℕ → ℕ
month_length leap m =
    if m == 1
    then 28 + leap_day leap
    else if m == 3 || m == 5 || m == 8 || m == 10
    then 30
    else if leb m 11
    then 31
    else 0

-- The days of a year before its month `m`.
unfoldable pub month_start : Bool → ℕ → ℕ
month_start leap zero = 0
month_start leap (suc m) = month_start leap m + month_length leap m

abbrev pub days_in_month : ℕ → ℕ → ℕ
days_in_month y m = month_length (is_leap y) m

-- The day of `new Date(year, month, 1)`, for the month `12 * year + month`.
unfoldable pub first_of : ℕ → ℕ
first_of m = year_start (m / 12) + month_start (is_leap (m / 12)) (m % 12)

-- The last of 0, …, k at which `f` is at most `n`.
unfoldable pub last_at_most : (ℕ → ℕ) → ℕ → ℕ → ℕ
last_at_most f zero n = zero
last_at_most f (suc k) n =
    let rest = last_at_most f k n in if leb (f (suc k)) n then suc k else rest

-- `getFullYear`, `getMonth`, `getDate`; no year has fewer than 365 days.
unfoldable pub date_of : ℕ → Date
date_of n =
    let y = last_at_most year_start (n / 365) n in
    let m = last_at_most (month_start (is_leap y)) 11 (n - year_start y) in
    record { year = y; month = m; date = (n - year_start y - month_start (is_leap y) m) + 1 }

abbrev pub day_of : Date → ℕ
day_of d = (first_of (12 * d.year + d.month) + d.date) - 1

-- `getDay`: Sunday is 0. The first of January of the year 0 was a Saturday.
abbrev pub get_day : ℕ → ℕ
get_day n = (n + 6) % 7

-- `padStart(2, "0")` of a numeral
abbrev pub pad : Text → Text
pad s = if ltb (length s) 2 then 48 ∷ s else s

-- `formatISO`, `iso`, `toISO`
unfoldable pub format_iso : Date → Text
format_iso d = show d.year ++ (45 ∷ (pad (show (d.month + 1)) ++ (45 ∷ pad (show d.date))))

abbrev pub checked : Date → Option Date
checked d =
    if leb d.month 11 && leb 1 d.date && leb d.date (days_in_month d.year d.month)
    then some d
    else none

-- `new Date(iso + "T00:00:00")`: `none` is an invalid date.
unfoldable pub parse_iso : Text → Option Date
parse_iso (a ∷ b ∷ c ∷ d ∷ p ∷ e ∷ f ∷ q ∷ g ∷ h ∷ []) =
    let m = value (e ∷ f ∷ []) in
    if p == 45 && q == 45 && all is_digit (a ∷ b ∷ c ∷ d ∷ e ∷ f ∷ g ∷ h ∷ []) && leb 1 m
    then checked
        (record { year = value (a ∷ b ∷ c ∷ d ∷ []); month = m - 1; date = value (g ∷ h ∷ []) })
    else none
parse_iso s = none
