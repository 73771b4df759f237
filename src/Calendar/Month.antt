-- ===== src/Calendar/Month.antt =====
-- web/src/components/Editable.tsx, `CalendarPopup`: the month shown and its cells. Months before the year 1
-- are not reached, and `new Date` has its plain meaning for years from 100.
use veckomenyn.Base.{
  ℕ, zero, suc, ◌+◌, ◌-◌, ◌*◌, ◌==◌, ltb, List, [], ◌∷◌, ◌++◌, Text, length, if◌then◌else◌,
}
use veckomenyn.Calendar.{date_of, first_of, get_day, format_iso}

pub record Cell : Type 0 where
  pub iso : Text
  pub day : ℕ
  pub month : ℕ

pub record ViewMonth : Type 0 where
  pub year : ℕ
  pub month : ℕ

abbrev pub number_of : ViewMonth → ℕ
number_of v = 12 * v.year + v.month

abbrev pub month_of : ℕ → ViewMonth
month_of n = let d = date_of (first_of n) in record { year = d.year; month = d.month }

-- `shiftMonth(1)` and `shiftMonth(-1)`
unfoldable pub next_month : ViewMonth → ViewMonth
next_month v = month_of (number_of v + 1)

unfoldable pub previous_month : ViewMonth → ViewMonth
previous_month v = month_of (number_of v - 1)

-- `{ iso: formatISO(d), day: d.getDate(), month: d.getMonth() }`
unfoldable pub cell_of : ℕ → Cell
cell_of n = let d = date_of n in record { iso = format_iso d; day = d.date; month = d.month }

-- `new Date(year, month, 1 - i)` for i = leading, …, 1
unfoldable pub leading_cells : ℕ → ℕ → List Cell
leading_cells first zero = []
leading_cells first (suc i) = cell_of ((first + 1) - suc i - 1) ∷ leading_cells first i

-- `new Date(year, month, i)` for the `count` values of i from `i` on
unfoldable pub month_cells : ℕ → ℕ → ℕ → ℕ → List Cell
month_cells month first i zero = []
month_cells month first i (suc count) =
    record { iso = format_iso (date_of ((first + i) - 1)); day = i; month = month }
    ∷ month_cells month first (suc i) count

-- `while (cells.length < 42)`; 42 rounds are enough.
unfoldable pub fill : ℕ → ℕ → ℕ → List Cell → List Cell
fill zero next i cells = cells
fill (suc fuel) next i cells =
    let more = fill fuel next (i + 1) (cells ++ cell_of ((next + i) - 1) ∷ []) in
    if ltb (length cells) 42 then more else cells

abbrev pub leading_of : ℕ → ℕ
leading_of first =
    let first_js = get_day first in
    let first_iso = if first_js == 0 then 7 else first_js in first_iso - 1

-- `buildMonth`
unfoldable pub build_month : ℕ → ℕ → List Cell
build_month year month =
    let first = first_of (12 * year + month) in
    let next = first_of (12 * year + month + 1) in
    let last_day = (date_of (next - 1)).date in
    fill 42 next 1 (leading_cells first (leading_of first) ++ month_cells month first 1 last_day)
