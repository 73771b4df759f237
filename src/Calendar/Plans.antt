-- ===== src/Calendar/Plans.antt =====
-- web/src/components/PlanNewForm.tsx and web/src/components/DuplicatePlanDialog.tsx: the period of a new
-- plan and of a copy. `today` is the day it is. Days that are 23 or 25 hours long round to a day in
-- `daysBetween`, which is counted in days here.
use veckomenyn.Base.{
  ℕ, zero, suc, ◌+◌, ◌-◌, Bool, true, false, not, ◌&&◌, leb, Option, none, some, [], Text, text,
  is_empty, trim, if◌then◌else◌,
}
use veckomenyn.Api.Http.{ℤ, pos, negsuc}
use veckomenyn.Api.Types.{WeekCreate, HouseholdSettings}
use veckomenyn.Calendar.{Date, date_of, day_of, format_iso, parse_iso}

-- `d.setDate(d.getDate() + offset)`
abbrev pub moved : ℕ → ℤ → ℕ
moved n (pos k) = n + k
moved n (negsuc k) = n - suc k

abbrev pub iso_of : Option Date → ℤ → Text
iso_of none offset = text "NaN-NaN-NaN"
iso_of (some d) offset = format_iso (date_of (moved (day_of d) offset))

-- `addDays`
unfoldable pub add_days : Text → ℤ → Text
add_days base offset = iso_of (parse_iso base) offset

abbrev pub difference : ℕ → ℕ → ℤ
difference m n = if leb n m then pos (m - n) else negsuc (n - m - 1)

abbrev pub days_of : Option Date → Option Date → Option ℤ
days_of (some start) (some end) = some (difference (day_of end) (day_of start))
days_of start end = none

-- `daysBetween`; `none` is NaN.
unfoldable pub days_between : Text → Text → Option ℤ
days_between start end = days_of (parse_iso start) (parse_iso end)

-- `PlanNewForm`
pub record PlanForm : Type 0 where
  pub start_date : Text
  pub dinners : ℤ
  pub notes : Text
  pub busy : Bool

abbrev pub default_dinners : ℕ
default_dinners = 7

abbrev pub today : ℕ → Text
today n = format_iso (date_of n)

unfoldable pub new_form : ℕ → PlanForm
new_form now = record {
  start_date = add_days (today now) (pos 1);
  dinners = pos default_dinners;
  notes = [];
  busy = false;
}

abbrev pub minus_one : ℤ → ℤ
minus_one (pos zero) = negsuc 0
minus_one (pos (suc n)) = pos n
minus_one (negsuc n) = negsuc (suc n)

-- `endDate`
unfoldable pub end_date : PlanForm → Text
end_date s = add_days s.start_date (minus_one s.dinners)

-- `Number.parseInt(e.target.value, 10) || 7`; `none` is NaN.
abbrev pub or_seven : Option ℤ → ℤ
or_seven none = pos 7
or_seven (some (pos zero)) = pos 7
or_seven (some n) = n

abbrev pub set_dinners : Option ℤ → PlanForm → PlanForm
set_dinners parsed s = record s { dinners = or_seven parsed }

-- `submit`, with what it calls `onSubmit` with.
unfoldable pub submit : PlanForm → PlanForm × Option WeekCreate
submit s = if s.busy then (s, none) else (
  record s { busy = true },
  some (record { start_date = s.start_date; end_date = end_date s; notes_md = trim s.notes }),
)

-- The `finally` of `submit`, and the effect that loads the settings.
abbrev pub settle : PlanForm → PlanForm
settle s = record s { busy = false }

abbrev pub on_settings : HouseholdSettings → PlanForm → PlanForm
on_settings settings s = record s { dinners = pos settings.default_dinners }

-- `DuplicatePlanDialog`, for the period of the source
pub record DuplicateDialog : Type 0 where
  pub source_start : Text
  pub source_end : Text
  pub start_date : Text
  pub busy : Bool

-- The effect on `source`.
unfoldable pub on_source : ℕ → Text → Text → DuplicateDialog → DuplicateDialog
on_source now start end s = record {
  source_start = start;
  source_end = end;
  start_date = add_days (today now) (pos 1);
  busy = false;
}

abbrev moved_by : Text → Option ℤ → Text
moved_by start none = text "NaN-NaN-NaN"
moved_by start (some duration) = add_days start duration

-- `endDate`
unfoldable pub duplicate_end : DuplicateDialog → Text
duplicate_end s = moved_by s.start_date (days_between s.source_start s.source_end)

abbrev pub can_confirm : DuplicateDialog → Bool
can_confirm s = not (is_empty s.start_date) && not s.busy

-- `confirm`, with what it calls `onConfirm` with.
unfoldable pub confirm : DuplicateDialog → DuplicateDialog × Option Text
confirm s = if can_confirm s then (record s { busy = true }, some s.start_date) else (s, none)

-- The `finally` of `confirm`.
abbrev pub settle_duplicate : DuplicateDialog → DuplicateDialog
settle_duplicate s = record s { busy = false }
