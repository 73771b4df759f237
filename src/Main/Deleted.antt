-- ===== src/Main/Deleted.antt =====
-- What is shown after a plan is deleted.
use veckomenyn.Base.{
  ◌≡◌, refl, Bool, true, false, none, some, Text, if◌then◌else◌, Bool-cases, inl, inr, is_some,
}
use veckomenyn.Api.Http.{returns, throws, done}
use veckomenyn.Api.Types.{WeekSummary}
use veckomenyn.Main.{Main, Drawer}
use veckomenyn.Toast.{error}
use veckomenyn.Main.Plans.{delete_plan, shows_id}

-- After a plan is deleted, whatever was shown, it is not shown, and the page goes home exactly if it was.
pub delete_plan-shows_id :
    {N : Type 0} (deleted : Text) (target : WeekSummary) (m : Main N) (d : Drawer)
    → (shows_id target.id (delete_plan deleted true target (returns done) m d).main ≡ false)
      × (is_some (delete_plan deleted true target (returns done) m d).goes ≡ shows_id target.id m)
unfolding delete_plan
delete_plan-shows_id deleted target m d = elim (Bool-cases (shows_id target.id m)) [
  | inl shown ↦ rw shown (refl, refl)
  | inr other ↦ rw other (other, refl)
]

-- A plan that the user does not give up, or that the server does not delete, stays: the page shows what
-- it showed, where it was, and says why.
pub delete_plan-refused :
    {N : Type 0} (deleted message : Text) (confirmed : Bool) (target : WeekSummary) (m : Main N)
    (d : Drawer)
    → ((delete_plan deleted confirmed target (throws message) m d).main ≡ m)
      × ((delete_plan deleted confirmed target (throws message) m d).goes ≡ none)
      × ((delete_plan deleted confirmed target (throws message) m d).toasts
          ≡ (if confirmed then some (error, message) else none))
unfolding delete_plan
delete_plan-refused deleted message false target m d = (refl, refl, refl)
delete_plan-refused deleted message true target m d = (refl, refl, refl)
