-- ===== src/Calendar/Days.antt =====
-- Days and dates are the same thing.
use veckomenyn.Base.{
  ℕ, suc, ◌+◌, ◌-◌, ◌*◌, ◌/◌, ◌%◌, ◌≤◌, ◌<◌, Bool, true, false, ◌≡◌, refl, ap, ◌∙◌, leb, ltb,
  Bool-cases, inl, inr, arith, ◌==◌, subst, ap₂,
}
use veckomenyn.Calendar.{
  Date, is_leap, leap_day, year_start, month_start, month_length, days_in_month, first_of,
  last_at_most, date_of, day_of,
}
use veckomenyn.Calendar.Search.{mono, last_at_most_lem, last_at_most_bounds}

year_start_step : (y : ℕ) → year_start (suc y) ≡ year_start y + 365 + leap_day (is_leap y)
unfolding year_start
year_start_step y = ground arith

year_start_le : (y : ℕ) → year_start y ≤ year_start (suc y)
year_start_le y = omega (arith, year_start_step y)

pub year_start_ge : (y : ℕ) → 365 * y ≤ year_start y
unfolding year_start
year_start_ge y = omega arith

month_start_le : (b : Bool) (m : ℕ) → month_start b m ≤ month_start b (suc m)
unfolding month_start
month_start_le b m = omega arith

month_start_year : (b : Bool) → month_start b 12 ≡ 365 + leap_day b
unfolding month_start month_length
month_start_year true = refl
month_start_year false = refl

month_start_step : (b : Bool) (m : ℕ) → month_start b (suc m) ≡ month_start b m + month_length b m
unfolding month_start
month_start_step b m = refl

month_start_end : (b : Bool) (m : ℕ) → m < 12 → month_start b (suc m) ≤ 365 + leap_day b
month_start_end b m h =
    let d : (11 - m) + suc m ≡ 12 = omega arith in
    omega (
      arith,
      month_start_year b,
      subst (λ x. month_start b (suc m) ≤ month_start b x) d
          (mono (month_start b) (month_start_le b) (suc m) (11 - m)),
    )

pub first_of_lem :
    (y m : ℕ) → m < 12 → first_of (12 * y + m) ≡ year_start y + month_start (is_leap y) m
unfolding first_of
first_of_lem y m h =
    ap₂ (λ a b. year_start a + month_start (is_leap a) b) (quotient y m h) (remainder y m h)
  where
    quotient : (y m : ℕ) → m < 12 → (12 * y + m) / 12 ≡ y
    quotient y m h = omega arith

    remainder : (y m : ℕ) → m < 12 → (12 * y + m) % 12 ≡ m
    remainder y m h = omega arith

-- The year and the month of a day inside of a month.
date_of_lem :
    (n y m i : ℕ)
    → m < 12
    → i < days_in_month y m
    → n ≡ year_start y + month_start (is_leap y) m + i
    → date_of n ≡ record { year = y; month = m; date = i + 1 }
unfolding date_of
date_of_lem n y m i h k e =
    let in_year = month_start_end (is_leap y) m h in
    let in_month = month_start_step (is_leap y) m in
    let found_year : last_at_most year_start (n / 365) n ≡ y =
      last_at_most_lem year_start year_start_le (n / 365) n y (omega (arith, year_start_ge y))
        (omega arith) (omega (arith, year_start_step y)) in
    let found_month : last_at_most (month_start (is_leap y)) 11 (n - year_start y) ≡ m =
      last_at_most_lem (month_start (is_leap y)) (month_start_le (is_leap y)) 11 (n - year_start y)
        m (omega arith) (omega arith) (omega arith) in
    rw found_year
      (rw found_month (ap (λ d. record { year = y; month = m; date = d }) (omega arith)))

-- The day `i` of a month, counted from 0, is that date.
pub date_of-first_of :
    (y m i : ℕ)
    → m < 12
    → i < days_in_month y m
    → date_of (first_of (12 * y + m) + i) ≡ record { year = y; month = m; date = i + 1 }
date_of-first_of y m i h k =
    date_of_lem (first_of (12 * y + m) + i) y m i h k (ap (λ a. a + i) (first_of_lem y m h))

abbrev pub IsDate : Date → Type 0
IsDate d = (d.month < 12) × (1 ≤ d.date) × (d.date ≤ days_in_month d.year d.month)

date_IsDate :
    (n y m : ℕ)
    → year_start y ≤ n
    → m < 12
    → month_start (is_leap y) m ≤ n - year_start y
    → n - year_start y < month_start (is_leap y) (suc m)
    → let d : Date = record {
      year = y;
      month = m;
      date = (n - year_start y - month_start (is_leap y) m) + 1;
    } in
      IsDate d × (day_of d ≡ n)
date_IsDate n y m l h k u = (
  (h, omega arith, omega (arith, month_start_step (is_leap y) m)),
  omega (arith, first_of_lem y m h),
)

year_start_zero : year_start 0 ≡ 0
unfolding year_start
year_start_zero = refl

month_start_zero : (b : Bool) → month_start b 0 ≡ 0
unfolding month_start
month_start_zero b = refl

-- Every day has a date of the calendar, and it is the day of that date.
pub date_of-IsDate : (n : ℕ) → IsDate (date_of n) × (day_of (date_of n) ≡ n)
unfolding date_of
date_of-IsDate n =
    let y = last_at_most year_start (n / 365) n in
    let (l, u, _) =
      last_at_most_bounds year_start year_start_le (n / 365) n (omega (arith, year_start_zero))
        (omega (arith, year_start_ge (suc (n / 365)))) in
    let (a, b, c) =
      last_at_most_bounds (month_start (is_leap y)) (month_start_le (is_leap y)) 11
        (n - year_start y) (omega (arith, month_start_zero (is_leap y)))
        (omega (arith, u, l, year_start_step y, month_start_year (is_leap y))) in
    date_IsDate n y (last_at_most (month_start (is_leap y)) 11 (n - year_start y)) l
      (omega (arith, c)) a b

-- A date of the calendar is the date of its day.
pub date_of-day_of : (d : Date) → IsDate d → date_of (day_of d) ≡ d
date_of-day_of d (h, l, u) =
    ap date_of (omega (arith, l))
    ∙ date_of-first_of d.year d.month (d.date - 1) h (omega arith)
    ∙ ap (λ x. record { year = d.year; month = d.month; date = x }) (omega arith)

-- The next month begins behind the last day.
pub first_of_next :
    (y m : ℕ) → m < 12 → first_of (12 * y + m + 1) ≡ first_of (12 * y + m) + days_in_month y m
first_of_next y m h = elim (Bool-cases (m == 11)) [
  | inl e ↦
      let last : m ≡ 11 = ground arith in
      let here = first_of_lem y m h in
      let next = first_of_lem (suc y) 0 (omega arith) in
      let same : first_of (12 * y + m + 1) ≡ first_of (12 * suc y + 0) =
        ap first_of (omega arith) in
      let end : month_start (is_leap y) (suc m) ≡ 365 + leap_day (is_leap y) =
        ap (λ a. month_start (is_leap y) (suc a)) last ∙ month_start_year (is_leap y) in
      omega (
        arith,
        same,
        next,
        here,
        end,
        month_start_step (is_leap y) m,
        year_start_step y,
        month_start_zero (is_leap (suc y)),
      )
  | inr e ↦
      let here = first_of_lem y m h in
      let next = first_of_lem y (suc m) (ground arith) in
      let same : first_of (12 * y + m + 1) ≡ first_of (12 * y + suc m) =
        ap first_of (omega arith) in
      omega (arith, same, next, here, month_start_step (is_leap y) m)
]

pub month_length_bounds :
    (b : Bool) (m : ℕ) → m < 12 → (28 ≤ month_length b m) × (month_length b m ≤ 31)
unfolding month_length
month_length_bounds b m h = (ground arith, ground arith)

-- A day between the starts of two years is in a year between them.
pub date_of-year :
    (n a b : ℕ)
    → year_start a ≤ n
    → n < year_start b
    → (a ≤ (date_of n).year) × ((date_of n).year < b)
unfolding date_of
date_of-year n a b h k =
    let (l, u, _) =
      last_at_most_bounds year_start year_start_le (n / 365) n (omega (arith, year_start_zero))
        (omega (arith, year_start_ge (suc (n / 365)))) in
    (
      year_start_order a (last_at_most year_start (n / 365) n) n h u,
      year_start_order_lt (last_at_most year_start (n / 365) n) b n l k,
    )
  where
    year_start_order : (x y n : ℕ) → year_start x ≤ n → n < year_start (suc y) → x ≤ y
    year_start_order x y n h u = elim (Bool-cases (leb x y)) [
      | inl e ↦ ground arith
      | inr e ↦
          let s : (x - suc y) + suc y ≡ x = ground arith in
          let above =
            subst (λ z. year_start (suc y) ≤ year_start z) s
              (mono year_start year_start_le (suc y) (x - suc y)) in
          ground (arith, above)
    ]

    year_start_order_lt : (y b n : ℕ) → year_start y ≤ n → n < year_start b → y < b
    year_start_order_lt y b n l k = elim (Bool-cases (ltb y b)) [
      | inl e ↦ ground arith
      | inr e ↦
          let s : (y - b) + b ≡ y = ground arith in
          let above =
            subst (λ z. year_start b ≤ year_start z) s (mono year_start year_start_le b (y - b)) in
          ground (arith, above)
    ]
