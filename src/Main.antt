-- ===== src/Main.antt =====
-- web/src/App.tsx, `Main`: what the effects that load a week and its conversation do. An effect has a
-- number; React runs its clean-up, which sets `cancelled`, before it runs the effect again, so an effect
-- is cancelled when its number is not the last one.
pub mod Loading
pub mod Keys
pub mod Plans
pub mod Deleted
mod Tests
use veckomenyn.Base.{
  ℕ, ◌+◌, Bool, true, false, ◌==◌, Option, none, some, List, [], ◌∷◌, ◌++◌, Text, text, show,
  if◌then◌else◌, map,
}
use veckomenyn.Route.{Route, home, new, settings, preferences, usage, setup, week, print}
use veckomenyn.Api.Http.{Outcome, returns, throws}
use veckomenyn.Api.Types.{WeekDetail, Dialogue, Message, Role, user, assistant, tool}
use veckomenyn.Chat.{ChatEntry, user as user_entry, assistant as assistant_entry}

pub data LoadStatus : Type 0 where
  loading empty ready error : LoadStatus

unfoldable pub route_load_key : Route → Text
route_load_key home = text "home"
route_load_key new = text "new"
route_load_key settings = text "settings"
route_load_key preferences = text "preferences"
route_load_key usage = text "usage"
route_load_key setup = text "setup"
route_load_key (week id) = text "week:" ++ show id
route_load_key (print id) = text "print:" ++ show id

-- The request that an effect awaits.
pub data Fetch : Type 0 where
  -- the current week, for the form of a new plan
  for_new : Fetch
  by_id : ℕ → Fetch
  current : Fetch

pub record Main (N : Type 0) : Type 0 where
  pub status : LoadStatus
  pub error_text : Option Text
  pub week : Option (WeekDetail N)
  pub sidebar_refresh : ℕ
  -- the number of the last effect, and what it awaits
  pub effect : ℕ
  pub awaits : Option Fetch

module _ {N : Type 0} where
  -- A modal shows the loaded week, or the current one; `week?.id` is falsy at 0.
  abbrev pub reload : Option (WeekDetail N) → Fetch
  reload none = current
  reload (some w) = if w.summary.id == 0 then current else by_id w.summary.id

  abbrev pub if_none : Option (WeekDetail N) → Option Fetch
  if_none none = some for_new
  if_none (some w) = none

  abbrev pub awaited : Route → Option (WeekDetail N) → Option Fetch
  awaited home w = none
  awaited new w = if_none w
  awaited (week id) w = some (by_id id)
  awaited _ w = some (reload w)

  abbrev pub on_start : Route → Main N → Main N
  on_start home s = record s { status = ready; sidebar_refresh = s.sidebar_refresh + 1 }
  on_start _ s = s

  -- The effect runs, up to its `await`.
  unfoldable pub run_effect : Route → Main N → Main N
  run_effect route s = record (on_start route s) {
    effect = s.effect + 1;
    awaits = awaited route s.week;
  }

  -- The rest of an effect that is not cancelled.
  abbrev pub receive : Fetch → Outcome (Option (WeekDetail N)) → Main N → Main N
  receive fetch (throws message) s = record s { error_text = some message; status = error }
  receive for_new (returns none) s = s
  receive for_new (returns (some w)) s = record s { week = some w; status = ready }
  receive _ (returns none) s = record s { status = empty; sidebar_refresh = s.sidebar_refresh + 1 }
  receive _ (returns (some w)) s = record s {
    week = some w;
    status = ready;
    sidebar_refresh = s.sidebar_refresh + 1;
  }

-- The answer to the request of an effect.
pub record Answer (N : Type 0) : Type 0 where
  pub effect : ℕ
  pub fetch : Fetch
  pub outcome : Outcome (Option (WeekDetail N))

unfoldable pub answer : {N : Type 0} → Answer N → Main N → Main N
answer a s = if a.effect == s.effect then receive a.fetch a.outcome s else s

abbrev pub answer_all : {N : Type 0} → List (Answer N) → Main N → Main N
answer_all [] s = s
answer_all (a ∷ rest) s = answer_all rest (answer a s)

-- The drawer of the chat, and the effect that fills it from the stored conversation of the week.
pub record Drawer : Type 0 where
  pub entries : List ChatEntry
  pub conversation_id : Option ℕ
  pub effect : ℕ

abbrev pub entry_of : Message → ChatEntry
entry_of m = elim m.role [
  | user ↦ user_entry m.text
  | assistant ↦ assistant_entry m.text
  | tool ↦ assistant_entry m.text
]

abbrev pub clear_drawer : Drawer → Drawer
clear_drawer s = record s { entries = []; conversation_id = none }

-- The effect for a week; without one it empties the drawer.
unfoldable pub run_chat_effect : Option ℕ → Drawer → Drawer
run_chat_effect none s = clear_drawer (record s { effect = s.effect + 1 })
run_chat_effect (some week_id) s = record s { effect = s.effect + 1 }

abbrev pub fill_drawer : Outcome (Option Dialogue) → Drawer → Drawer
fill_drawer (returns (some d)) s = record s {
  conversation_id = some d.conversation.id;
  entries = map entry_of d.messages;
}
fill_drawer _ s = clear_drawer s

unfoldable pub answer_chat : ℕ → Outcome (Option Dialogue) → Drawer → Drawer
answer_chat effect outcome s = if effect == s.effect then fill_drawer outcome s else s
