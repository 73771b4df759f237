-- ===== src/Calendar/Periods.antt =====
-- The length of the period of a plan.
use veckomenyn.Base.{ℕ, suc, ◌+◌, ◌≤◌, ◌<◌, ◌≡◌, ap, ap₂, ◌∙◌, some, Text, subst, arith}
use veckomenyn.Api.Http.{pos}
use veckomenyn.Calendar.{Date, date_of, day_of, format_iso, parse_iso, year_start}
use veckomenyn.Calendar.Days.{date_of-IsDate, date_of-year}
use veckomenyn.Calendar.Iso.{parse_iso-format_iso}
use veckomenyn.Calendar.Plans.{
  add_days, difference, days_of, days_between, PlanForm, end_date, DuplicateDialog, duplicate_end,
}

-- The days of the years from 1000 to 9999.
abbrev pub IsDay : ℕ → Type 0
IsDay n = (year_start 1000 ≤ n) × (n < year_start 10000)

parse_iso-day : (n : ℕ) → IsDay n → parse_iso (format_iso (date_of n)) ≡ some (date_of n)
parse_iso-day n (l, u) =
    let (a, b) = date_of-year n 1000 10000 l u in
    parse_iso-format_iso (date_of n) ((date_of-IsDate n).0) a b

add_days-parse :
    (base : Text) (d : Date) (k : ℕ)
    → parse_iso base ≡ some d
    → IsDay (day_of d + k)
    → parse_iso (add_days base (pos k)) ≡ some (date_of (day_of d + k))
unfolding add_days
add_days-parse base d k e h = rw e (parse_iso-day (day_of d + k) h)

difference_add : (n k : ℕ) → difference (n + k) n ≡ pos k
difference_add n k = ground arith

-- Moving a date by some days and then by some more moves it by their sum, and the days between a date and
-- the moved one are those it was moved by. The dates are dates of the years from 1000 to 9999.
pub days_between-add_days :
    (base : Text) (d : Date) (j k : ℕ)
    → parse_iso base ≡ some d
    → IsDay (day_of d + j)
    → IsDay (day_of d + j + k)
    → (add_days (add_days base (pos j)) (pos k) ≡ add_days base (pos (j + k)))
      × (days_between base (add_days base (pos j)) ≡ some (pos j))
unfolding add_days days_between
days_between-add_days base d j k e h m =
    let back = (date_of-IsDate (day_of d + j)).1 in
    (
      rw (add_days-parse base d j e h)
          (rw back (rw e (ap (λ n. format_iso (date_of n)) (omega arith)))),
      ap₂ days_of e (add_days-parse base d j e h)
          ∙ ap (λ n. some (difference n (day_of d))) back
          ∙ ap some (difference_add (day_of d) j),
    )

-- A new plan of one dinner or more has as many days as dinners, from its start to its end. Its days are
-- days of the years from 1000 to 9999.
pub end_date-days_between :
    (s : PlanForm) (d : Date) (k : ℕ)
    → s.dinners ≡ pos (suc k)
    → parse_iso s.start_date ≡ some d
    → IsDay (day_of d + k)
    → days_between s.start_date (end_date s) ≡ some (pos k)
unfolding end_date
end_date-days_between s d k e h m =
    rw e ((days_between-add_days s.start_date d k 0 h m (subst IsDay (omega arith) m)).1)

-- The copy of a plan is as long as the plan, whenever it begins: from its start, which is a date, to
-- its end are as many days as from the start of the source to its end. The last day of the copy is one
-- of the years from 1000 to 9999, and the source does not end before it begins.
pub duplicate_end-days_between :
    (s : DuplicateDialog) (d : Date) (k : ℕ)
    → days_between s.source_start s.source_end ≡ some (pos k)
    → parse_iso s.start_date ≡ some d
    → IsDay (day_of d + k)
    → days_between s.start_date (duplicate_end s) ≡ days_between s.source_start s.source_end
unfolding duplicate_end
duplicate_end-days_between s d k e h m =
    rw e ((days_between-add_days s.start_date d k 0 h m (subst IsDay (omega arith) m)).1)
