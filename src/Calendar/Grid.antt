-- ===== src/Calendar/Grid.antt =====
-- The cells of a month are six whole weeks of consecutive days.
use veckomenyn.Base.{
  ℕ, zero, suc, ◌+◌, ◌-◌, ◌*◌, ◌≤◌, ◌<◌, ◌≡◌, refl, sym, ap, ap₂, ◌∙◌, ltb, List, [], ◌∷◌, ◌++◌,
  length, inl, inr, Bool-cases, arith,
}
use veckomenyn.Calendar.{date_of, first_of, get_day, format_iso, is_leap, days_in_month}
use veckomenyn.Calendar.Days.{
  date_of-first_of, first_of_lem, first_of_next, month_length_bounds, year_start_ge,
}
use veckomenyn.Calendar.Month.{
  Cell, cell_of, leading_cells, month_cells, fill, leading_of, build_month,
}

-- The cells of the days from `n` on.
unfoldable pub cells_from : ℕ → ℕ → List Cell
cells_from n zero = []
cells_from n (suc k) = cell_of n ∷ cells_from (suc n) k

cells_from-append : (n j k : ℕ) → cells_from n j ++ cells_from (n + j) k ≡ cells_from n (j + k)
unfolding cells_from
cells_from-append n zero k = ap₂ cells_from (omega arith) (omega arith)
cells_from-append n (suc j) k =
    ap (λ m. cell_of n ∷ (cells_from (suc n) j ++ cells_from m k)) (next n j)
    ∙ ap (λ c. cell_of n ∷ c) (cells_from-append (suc n) j k)
    ∙ ap (cells_from n) (count j k)
  where
    next : (n j : ℕ) → n + suc j ≡ suc n + j
    next n j = omega arith

    count : (j k : ℕ) → suc (j + k) ≡ suc j + k
    count j k = omega arith

length-cells_from : (n k : ℕ) → length (cells_from n k) ≡ k
unfolding cells_from
length-cells_from n zero = refl
length-cells_from n (suc k) = ap suc (length-cells_from (suc n) k)

cells_from-last : (n k : ℕ) → cells_from n k ++ cell_of (n + k) ∷ [] ≡ cells_from n (k + 1)
unfolding cells_from
cells_from-last n k = cells_from-append n k 1

leading_cells_lem : (first i : ℕ) → i ≤ first → leading_cells first i ≡ cells_from (first - i) i
unfolding leading_cells cells_from
leading_cells_lem first zero h = refl
leading_cells_lem first (suc i) h =
    ap₂ (λ n c. cell_of n ∷ c) (here first i h)
      (leading_cells_lem first i (omega arith) ∙ ap (λ n. cells_from n i) (next first i h))
  where
    here : (first i : ℕ) → suc i ≤ first → (first + 1) - suc i - 1 ≡ first - suc i
    here first i h = omega arith

    next : (first i : ℕ) → suc i ≤ first → first - i ≡ suc (first - suc i)
    next first i h = omega arith

month_cells_lem :
    (year month i count : ℕ)
    → month < 12
    → i + count ≤ days_in_month year month
    → month_cells month (first_of (12 * year + month)) (suc i) count
      ≡ cells_from (first_of (12 * year + month) + i) count
unfolding month_cells cells_from cell_of
month_cells_lem year month i zero h k = refl
month_cells_lem year month i (suc count) h k =
    let first = first_of (12 * year + month) in
    let here : (first + suc i) - 1 ≡ first + i = omega arith in
    let next : first + suc i ≡ suc (first + i) = omega arith in
    let date = date_of-first_of year month i h (omega arith) in
    let number : suc i ≡ (date_of (first + i)).date = sym (ap (λ d. d.date) date ∙ omega arith) in
    let in_month : month ≡ (date_of (first + i)).month = sym (ap (λ d. d.month) date) in
    ap₂ (λ c cs. c ∷ cs)
      (λ r. record { iso = format_iso (date_of (here r)); day = number r; month = in_month r })
      (month_cells_lem year month (suc i) count h (omega arith) ∙ ap (λ n. cells_from n count) next)

fill_lem :
    (fuel start n i : ℕ)
    → 42 ≤ fuel + (n + i)
    → n + i ≤ 42
    → fill fuel (start + n) (suc i) (cells_from start (n + i)) ≡ cells_from start 42
unfolding fill
fill_lem zero start n i h k = ap (cells_from start) (omega arith)
fill_lem (suc fuel) start n i h k = elim (Bool-cases (ltb (length (cells_from start (n + i))) 42)) [
  | inl e ↦
      let count = length-cells_from start (n + i) in
      let here : (start + n + suc i) - 1 ≡ start + (n + i) = omega arith in
      let more : n + i + 1 ≡ n + suc i = omega arith in
      let index : suc i + 1 ≡ suc (suc i) = omega arith in
      let added : cells_from start (n + i) ++ cell_of ((start + n + suc i) - 1) ∷ []
          ≡ cells_from start (n + suc i) =
        ap (λ d. cells_from start (n + i) ++ cell_of d ∷ []) here
        ∙ cells_from-last start (n + i)
        ∙ ap (cells_from start) more in
      rw e (
        ap₂ (fill fuel (start + n)) index added
        ∙ fill_lem fuel start n (suc i) (omega arith) (ground (arith, e, count)))
  | inr e ↦
      let count = length-cells_from start (n + i) in
      rw e (ap (cells_from start) (ground (arith, e, count)))
]

leading_of_le : (first : ℕ) → leading_of first ≤ 6
leading_of_le first = ground arith

-- `new Date(year, month + 1, 0).getDate()` is the number of days of the month.
last_day :
    (year month : ℕ)
    → month < 12
    → (date_of (first_of (12 * year + month + 1) - 1)).date ≡ days_in_month year month
last_day year month k =
    let bounds = month_length_bounds (is_leap year) month k in
    let count = days_in_month year month in
    let day : first_of (12 * year + month + 1) - 1 ≡ first_of (12 * year + month) + (count - 1) =
      omega (arith, first_of_next year month k) in
    ap (λ n. (date_of n).date) day
    ∙ ap (λ d. d.date) (date_of-first_of year month (count - 1) k (omega arith))
    ∙ omega arith

-- The cells before the filling, when the loops are done.
cells_before :
    (year month lead count : ℕ)
    → month < 12
    → lead ≤ first_of (12 * year + month)
    → count ≡ days_in_month year month
    → leading_cells (first_of (12 * year + month)) lead
        ++ month_cells month (first_of (12 * year + month)) 1 count
      ≡ cells_from (first_of (12 * year + month) - lead) (lead + count + 0)
cells_before year month lead count k h e =
    let first = first_of (12 * year + month) in
    let start : first + 0 ≡ (first - lead) + lead = omega arith in
    ap₂ (λ a b. a ++ b) (leading_cells_lem first lead h)
      (month_cells_lem year month 0 count k (omega (arith, e)) ∙ ap (λ n. cells_from n count) start)
    ∙ cells_from-append (first - lead) lead count
    ∙ ap (cells_from (first - lead)) (omega arith)

monday : (first : ℕ) → 7 ≤ first → get_day (first - leading_of first) ≡ 1
monday first h = ground arith

-- The calendar of a month is 42 cells of consecutive days, from a Monday on: that many days before the
-- first of the month as its day of the week asks for, the month, and the days behind it. Each cell has
-- the text, the number and the month of its day. The year is at least 1.
pub build_month_lem :
    (year month : ℕ)
    → 1 ≤ year
    → month < 12
    → let first = first_of (12 * year + month) in
      (build_month year month ≡ cells_from (first - leading_of first) 42)
      × (get_day (first - leading_of first) ≡ 1)
unfolding build_month
build_month_lem year month h k =
    let first = first_of (12 * year + month) in
    let lead = leading_of first in
    let count = days_in_month year month in
    let bounds = month_length_bounds (is_leap year) month k in
    let from_monday = leading_of_le first in
    let late : 7 ≤ first = omega (arith, first_of_lem year month k, year_start_ge year) in
    let next : first_of (12 * year + month + 1) ≡ (first - lead) + (lead + count) =
      omega (arith, first_of_next year month k) in
    (
      ap₂ (λ n cells. fill 42 n 1 cells) next
            (ap (λ n. leading_cells first lead ++ month_cells month first 1 n)
                (last_day year month k)
              ∙ cells_before year month lead count k (omega arith) refl)
          ∙ fill_lem 42 (first - lead) (lead + count) 0 (omega arith) (omega arith),
      monday first late,
    )
