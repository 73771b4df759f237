-- ===== src/Gate.antt =====
-- web/src/App.tsx, `App`: whether the setup has been done, and what is shown.
pub mod Complete
mod Tests
use veckomenyn.Base.{Bool, true, false, Option, none, some, List, [], ◌∷◌, if◌then◌else◌}
use veckomenyn.Route.{Route, home, new, settings, preferences, usage, setup, week, print}
use veckomenyn.Api.Http.{Outcome, returns, throws}
use veckomenyn.Api.Admin.{SetupStatus}

-- `stored` is the item "veckomenyn.setup_complete" of the local storage.
pub record Gate : Type 0 where
  pub setup_complete : Option Bool
  pub stored : Bool

unfoldable pub init : Bool → Gate
init stored = record { setup_complete = if stored then some true else none; stored = stored }

abbrev pub is_setup : Route → Bool
is_setup setup = true
is_setup _ = false

abbrev pub is_complete : Gate → Bool
is_complete s = elim s.setup_complete [ none ↦ false | some b ↦ b ]

-- The answer of `getSetupStatus`, with the navigation that follows. The effect is not run, and a run of
-- it is cancelled, when the setup is complete.
unfoldable pub on_status : Route → Outcome SetupStatus → Gate → Gate × Option (Route × Bool)
on_status route outcome s = if is_complete s then (s, none) else elim outcome [
  | throws message ↦ (record s { setup_complete = some true }, none)
  | returns status ↦
      if status.setup_complete
      then (record { setup_complete = some true; stored = true }, none)
      else (
        record s { setup_complete = some false },
        if is_setup route then none else some (setup, true),
      )
]

-- The second effect.
unfoldable pub bounce : Route → Gate → Option (Route × Bool)
bounce route s =
    if is_complete s then (if is_setup route then some (home, true) else none) else none

-- `onComplete` of the wizard
unfoldable pub on_complete : Gate → Gate
on_complete s = record { setup_complete = some true; stored = true }

pub data View : Type 0 where
  printable_week : View
  setup_wizard bootstrap_splash main_page : View

abbrev pub view_of : Option Bool → View
view_of none = bootstrap_splash
view_of (some false) = setup_wizard
view_of (some true) = main_page

abbrev pub is_print : Route → Bool
is_print (print id) = true
is_print _ = false

unfoldable pub view : Route → Gate → View
view route s = if is_print route then printable_week else view_of s.setup_complete

pub data Event : Type 0 where
  status_answered : Route → Outcome SetupStatus → Event
  wizard_completed : Event
  -- the page is loaded again
  reloaded : Event

unfoldable pub step : Event → Gate → Gate
step (status_answered route outcome) s = (on_status route outcome s).0
step wizard_completed s = on_complete s
step reloaded s = init s.stored

abbrev pub run : List Event → Gate → Gate
run [] s = s
run (e ∷ es) s = run es (step e s)
