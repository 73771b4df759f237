-- ===== src/Calendar/Shift.antt =====
-- Going through the months of the calendar.
use veckomenyn.Base.{ℕ, ◌+◌, ◌-◌, ◌*◌, ◌/◌, ◌%◌, ◌≤◌, ◌<◌, ◌≡◌, ap, ◌∙◌, arith}
use veckomenyn.Calendar.{date_of, first_of, is_leap}
use veckomenyn.Calendar.Days.{date_of-first_of, month_length_bounds}
use veckomenyn.Calendar.Month.{ViewMonth, number_of, month_of, next_month, previous_month}

month_of-number_of : (v : ViewMonth) → v.month < 12 → month_of (number_of v) ≡ v
month_of-number_of v h =
    let bounds = month_length_bounds (is_leap v.year) v.month h in
    let day : first_of (number_of v) ≡ first_of (12 * v.year + v.month) + 0 = omega arith in
    ap (λ n. let d = date_of n in record { year = d.year; month = d.month }) day
    ∙ ap (λ d. record { year = d.year; month = d.month })
        (date_of-first_of v.year v.month 0 h (omega arith))

month_of_split : (n : ℕ) → month_of n ≡ record { year = n / 12; month = n % 12 }
month_of_split n =
    ap month_of (omega arith)
    ∙ month_of-number_of (record { year = n / 12; month = n % 12 }) (omega arith)

-- The arrows of the calendar go to the month behind and the month before, over the end of a year too, and
-- each takes the other back. The month shown is a month of the year 1 or a later one.
pub shift_month_lem :
    (v : ViewMonth)
    → v.month < 12
    → 1 ≤ v.year
    → (number_of (next_month v) ≡ number_of v + 1)
      × (number_of (previous_month v) + 1 ≡ number_of v)
      × (previous_month (next_month v) ≡ v)
      × (next_month (previous_month v) ≡ v)
unfolding next_month previous_month
shift_month_lem v h k =
    let next : number_of (month_of (number_of v + 1)) ≡ number_of v + 1 =
      number (number_of v + 1) in
    let before : number_of (month_of (number_of v - 1)) ≡ number_of v - 1 =
      number (number_of v - 1) in
    let here = month_of-number_of v h in
    (
      next,
      omega (arith, before),
      ap (λ n. month_of (n - 1)) next ∙ ap month_of (back (number_of v)) ∙ here,
      ap (λ n. month_of (n + 1)) before ∙ ap month_of (forth v k) ∙ here,
    )
  where
    number : (n : ℕ) → number_of (month_of n) ≡ n
    number n = ap number_of (month_of_split n) ∙ omega arith

    back : (n : ℕ) → n + 1 - 1 ≡ n
    back n = omega arith

    forth : (v : ViewMonth) → 1 ≤ v.year → number_of v - 1 + 1 ≡ number_of v
    forth v k = omega arith
