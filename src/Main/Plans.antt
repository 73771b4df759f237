-- ===== src/Main/Plans.antt =====
-- web/src/App.tsx: creating, duplicating, deleting and patching a plan, and clearing its chat, each as
-- what it does when its request is answered.
use veckomenyn.Base.{ℕ, ◌+◌, Bool, true, false, ◌==◌, Option, none, some, Text, if◌then◌else◌}
use veckomenyn.Route.{Route, home, week}
use veckomenyn.Toast.{ToastVariant, success, error}
use veckomenyn.Api.Http.{Outcome, returns, throws, Done}
use veckomenyn.Api.Types.{WeekDetail, WeekSummary}
use veckomenyn.Main.{Main, ready, Drawer, clear_drawer}

-- The page after an operation, the route it navigates to with the option `replace`, the toast it shows,
-- and the error it throws to its caller.
pub record Turn (N : Type 0) : Type 0 where
  pub main : Main N
  pub drawer : Drawer
  pub goes : Option (Route × Bool)
  pub toasts : Option (ToastVariant × Text)
  pub thrown : Option Text

module _ {N : Type 0} where
  abbrev pub stays : Main N → Drawer → Turn N
  stays m d = record { main = m; drawer = d; goes = none; toasts = none; thrown = none }

  abbrev pub shows_id : ℕ → Main N → Bool
  shows_id id m = elim m.week [ none ↦ false | some w ↦ w.summary.id == id ]

  -- `createNewPlan`
  unfoldable pub create_plan : Outcome (WeekDetail N) → Main N → Drawer → Turn N
  create_plan (throws message) m d = record (stays m d) { thrown = some message }
  create_plan (returns w) m d = record {
    main = record m { week = some w; status = ready; sidebar_refresh = m.sidebar_refresh + 1 };
    drawer = clear_drawer d;
    goes = some (week w.summary.id, true);
    toasts = none;
    thrown = none;
  }

  -- `confirmDuplicate`, without the dialogue's own state; nothing is sent without a source.
  unfoldable pub confirm_duplicate :
      Option WeekSummary → Outcome (WeekDetail N) → Main N → Drawer → Turn N
  confirm_duplicate none o m d = stays m d
  confirm_duplicate (some source) (throws message) m d = record (stays m d) {
    toasts = some (error, message);
  }
  confirm_duplicate (some source) (returns w) m d =
      record (stays (record m { sidebar_refresh = m.sidebar_refresh + 1 }) d) {
        goes = some (week w.summary.id, false);
      }

  -- `deletePlan`; `deleted` is the text of "toast.week_deleted".
  unfoldable pub delete_plan :
      (deleted : Text) (confirmed : Bool) (target : WeekSummary)
      → Outcome Done
      → Main N
      → Drawer
      → Turn N
  delete_plan deleted false target o m d = stays m d
  delete_plan deleted true target (throws message) m d = record (stays m d) {
    toasts = some (error, message);
  }
  delete_plan deleted true target (returns _) m d =
      let refreshed = record m { sidebar_refresh = m.sidebar_refresh + 1 } in
      if shows_id target.id m
      then record (stays (record refreshed { week = none; status = ready }) d) {
        goes = some (home, true);
        toasts = some (success, deleted);
      }
      else record (stays refreshed d) { toasts = some (success, deleted) }

  -- `patchCurrentWeek`, with the week as it was when the patch was sent
  unfoldable pub patch_current_week :
      Option (WeekDetail N) → Outcome (WeekDetail N) → Main N → Drawer → Turn N
  patch_current_week none o m d = stays m d
  patch_current_week (some sent) (throws message) m d = record (stays m d) {
    toasts = some (error, message);
    thrown = some message;
  }
  patch_current_week (some sent) (returns updated) m d = stays (record m { week = some updated }) d

  -- `clearChat`
  unfoldable pub clear_chat : Option (WeekDetail N) → Outcome Done → Main N → Drawer → Turn N
  clear_chat none o m d = stays m d
  clear_chat (some w) (throws message) m d = record (stays m (clear_drawer d)) {
    toasts = some (error, message);
  }
  clear_chat (some w) (returns _) m d = stays m (clear_drawer d)
