-- ===== src/Week.antt =====
-- web/src/components/WeekView.tsx: the life cycle of a week, and the guards before its status or its
-- last day changes. `confirmed` is the answer that `window.confirm` would get.
pub mod Guards
mod Tests
use veckomenyn.Base.{
  ℕ, Bool, true, false, not, ◌&&◌, ◌||◌, ltb, ◌==◌, Option, none, some, List, [], ◌∷◌, Text,
  if◌then◌else◌, is_empty, keep_if, length, get_or,
}
use veckomenyn.Api.Types.{Status, draft, cart_built, ordered, WeekDetail, WeekPatch, Dinner}

module _ {N : Type 0} where
  abbrev pub is_rateable : WeekDetail N → Bool
  is_rateable w = elim w.summary.status [ draft ↦ false | cart_built ↦ false | ordered ↦ true ]

  abbrev pub is_locked : WeekDetail N → Bool
  is_locked w = elim w.summary.status [ draft ↦ false | cart_built ↦ true | ordered ↦ true ]

-- STATUS_ORDER.indexOf
abbrev pub index_of : Status → ℕ
index_of draft = 0
index_of cart_built = 1
index_of ordered = 2

unfoldable pub is_backward_transition : Status → Status → Bool
is_backward_transition from to = ltb (index_of to) (index_of from)

abbrev pub no_patch : WeekPatch
no_patch = record {
  iso_week = none;
  start_date = none;
  end_date = none;
  delivery_date = none;
  order_date = none;
  status = none;
  notes_md = none;
}

-- What the button for the next step does: a prompt for the agent, a patch, or the dialogue that
-- duplicates the week.
pub data Action : Type 0 where
  build_cart record_retrospective : (start end : Text) → Action
  patch : WeekPatch → Action
  duplicate : Action

abbrev pub has_retro : {N : Type 0} → WeekDetail N → Bool
has_retro w = elim w.retrospectives [ [] ↦ false | r ∷ rs ↦ true ]

-- `next` of `Lifecycle`
unfoldable pub next_step : {N : Type 0} → (today : Text) → Status → WeekDetail N → Action
next_step today draft w = build_cart w.summary.start_date w.summary.end_date
next_step today cart_built w = patch (record no_patch {
  status = some ordered;
  order_date = some (some (get_or w.summary.order_date today));
})
next_step today ordered w =
    if not (has_retro w)
    then record_retrospective w.summary.start_date w.summary.end_date
    else duplicate

-- A click in `StatusMenu`: the status that is picked, if any.
unfoldable pub pick : (confirmed : Bool) → (current s : Status) → Option Status
unfolding is_backward_transition
pick confirmed current s =
    if index_of s == index_of current
    then none
    else if is_backward_transition current s && not confirmed
    then none
    else some s

-- `a < b` on strings
unfoldable pub text_lt : Text → Text → Bool
text_lt s [] = false
text_lt [] (d ∷ t) = true
text_lt (c ∷ s) (d ∷ t) = ltb c d || (c == d && text_lt s t)

module _ {N : Type 0} where
  -- `week.dinners.filter((d) => d.day_date > v)`
  abbrev pub lost : Text → WeekDetail N → List Dinner
  lost v w = keep_if (λ (d : Dinner). text_lt v d.day_date) w.dinners

  -- Whether `window.confirm` is called for a new last day.
  unfoldable pub asks : Text → WeekDetail N → Bool
  unfolding text_lt
  asks v w = text_lt v w.summary.end_date && ltb 0 (length (lost v w))

  -- `onCommit` of the last day: the new day of the patch, if one is sent.
  unfoldable pub commit_end : (confirmed : Bool) → Option Text → WeekDetail N → Option Text
  unfolding asks
  commit_end confirmed none w = none
  commit_end confirmed (some v) w =
      if is_empty v then none else if asks v w && not confirmed then none else some v
