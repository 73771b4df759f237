-- ===== src/Wizard.antt =====
-- web/src/components/SetupWizard.tsx: the steps of the setup. `completed` counts the calls of `onComplete`,
-- each of which goes with the navigation to the main page.
pub mod Walk
mod Tests
use veckomenyn.Base.{
  ℕ, zero, suc, ◌+◌, ◌-◌, Bool, true, false, not, ◌&&◌, is_some, ltb, Option, none, some, List, [],
  ◌∷◌, Text, text, is_empty, trim, length, get_elem?, if◌then◌else◌, ◌⊎◌, inl, inr,
}
use veckomenyn.Base.Assoc.{Assoc}
use veckomenyn.Api.Types.{ProviderPatch}

pub data Step : Type 0 where
  welcome api_key seed done : Step

-- `STEPS`
abbrev pub steps : List Step
steps = welcome ∷ api_key ∷ seed ∷ []

pub data Busy : Type 0 where
  idle saving seeding : Busy

-- `request` is the patch of the provider that is under way.
pub record Wizard : Type 0 where
  pub step : Step
  pub api_key : Text
  pub busy : Busy
  pub seeded_count : Option ℕ
  pub error : Option Text
  pub completed : ℕ
  pub request : Option ProviderPatch

abbrev pub init : Wizard
init = record {
  step = welcome;
  api_key = [];
  busy = idle;
  seeded_count = none;
  error = none;
  completed = 0;
  request = none;
}

-- `STEPS.indexOf(step)`; `none` is -1.
abbrev pub index_of : Step → Option ℕ
index_of welcome = some 0
index_of api_key = some 1
index_of seed = some 2
index_of done = none

-- `finish`
abbrev pub finish : Wizard → Wizard
finish s = record s { completed = s.completed + 1 }

abbrev pub go_to : Option Step → Wizard → Wizard
go_to none s = s
go_to (some step) s = record s { step = step }

abbrev pub next_from : Option ℕ → Wizard → Wizard
next_from none s = finish s
next_from (some i) s =
    if ltb i (length steps - 1) then go_to (get_elem? steps (i + 1)) s else finish s

-- `next`
unfoldable pub next : Wizard → Wizard
next s = next_from (index_of s.step) s

abbrev pub back_from : Option ℕ → Wizard → Wizard
back_from none s = s
back_from (some i) s = if ltb 0 i then go_to (get_elem? steps (i - 1)) s else s

-- `back`
unfoldable pub back : Wizard → Wizard
back s = back_from (index_of s.step) s

-- `saveKey`, up to its request
unfoldable pub save_key : Wizard → Wizard
save_key s = if is_empty (trim s.api_key) then s else record s {
  busy = saving;
  error = none;
  request =
      some (record { enabled = some true; config = some ((text "api_key", trim s.api_key) ∷ []) });
}

-- The rest of `saveKey`: the message of the error, if there is one.
unfoldable pub on_saved : Option Text → Wizard → Wizard
on_saved none s = record (next s) { busy = idle; request = none }
on_saved (some message) s = record s { busy = idle; error = some message; request = none }

-- `onSeed`, up to its request
abbrev pub seed_all : Wizard → Wizard
seed_all s = record s { busy = seeding; error = none }

-- The rest of `onSeed`.
abbrev pub on_seeded : ℕ ⊎ Text → Wizard → Wizard
on_seeded (inl n) s = record s { busy = idle; seeded_count = some n }
on_seeded (inr message) s = record s { busy = idle; error = some message }

pub data Event : Type 0 where
  next_pressed back_pressed save_pressed seed_pressed finish_pressed : Event
  typed : Text → Event
  saved : Option Text → Event
  seeded : ℕ ⊎ Text → Event

abbrev pub is_idle : Busy → Bool
is_idle idle = true
is_idle b = false

abbrev pub is_welcome : Step → Bool
is_welcome welcome = true
is_welcome st = false

abbrev pub is_api_key : Step → Bool
is_api_key api_key = true
is_api_key st = false

abbrev pub is_seed : Step → Bool
is_seed seed = true
is_seed st = false

abbrev pub if_request : Option ProviderPatch → Wizard → Wizard → Wizard
if_request none s t = s
if_request (some p) s t = t

-- The buttons, where they are and are not disabled.
unfoldable pub press : Event → Wizard → Wizard
press next_pressed s = if is_welcome s.step then next s else s
press back_pressed s = if not (is_welcome s.step) && is_idle s.busy then back s else s
press save_pressed s = if is_api_key s.step && is_idle s.busy then save_key s else s
press seed_pressed s =
    if is_seed s.step && not (is_some s.seeded_count) && is_idle s.busy then seed_all s else s
press finish_pressed s = if is_seed s.step then finish s else s
press (typed value) s = if is_api_key s.step then record s { api_key = value } else s
press (saved answer) s = if_request s.request s (on_saved answer s)
press (seeded answer) s = if is_idle s.busy then s else on_seeded answer s

abbrev pub run : List Event → Wizard → Wizard
run [] s = s
run (e ∷ es) s = run es (press e s)
