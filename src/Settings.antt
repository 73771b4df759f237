-- ===== src/Settings.antt =====
-- web/src/components/SettingsModal.tsx, `SettingsModal`: edits are gathered in one patch, which a timer
-- sends. `requests` are those that have not reached the server, `answers` those that have not reached
-- the page; any of them can be the next. `server` is what the server has stored.
pub mod Patch
pub mod Steps
pub mod Saved
pub mod Refused
pub mod Overtaken
mod Tests
use veckomenyn.Base.{
  ℕ, zero, suc, Bool, true, false, Option, none, some, is_some, List, [], ◌∷◌, ◌++◌, Text,
  if◌then◌else◌, get_elem?,
}
use veckomenyn.Api.Types.{Language, swedish, english, HouseholdSettings, SettingsPatch}
use veckomenyn.I18n.{Lang, sv, en, LangState, set_lang}
use veckomenyn.Settings.Patch.{
  Edit, language, applied, edited, patch_of, merged, no_patch, is_empty_patch,
}

pub data Request : Type 0 where
  load : Request
  save : SettingsPatch → Request

-- What the server had when it answered, and for a patch the language in it.
pub data Answer : Type 0 where
  loaded_with : HouseholdSettings → Answer
  saved_as : Option Language → HouseholdSettings → Answer

pub record Settings : Type 0 where
  pub is_shown : Bool
  pub settings : Option HouseholdSettings
  pub loaded : Bool
  pub pending : SettingsPatch
  pub timer : Bool
  pub lang : LangState
  pub requests : List Request
  pub answers : List Answer
  pub errors : List Text
  pub server : HouseholdSettings

abbrev lang_of : Language → Lang
lang_of swedish = sv
lang_of english = en

abbrev with_request : Request → Settings → Settings
with_request r s = record s { requests = s.requests ++ r ∷ [] }

-- `flush`, up to its request
unfoldable pub flush : Settings → Settings
flush s =
    let rest : Settings = record s { pending = no_patch; timer = false } in
    if is_empty_patch s.pending then rest else with_request (save s.pending) rest

-- `scheduleSave`
abbrev schedule_save : SettingsPatch → Settings → Settings
schedule_save patch s = record s { pending = merged s.pending patch; timer = true }

abbrev edited_if : Edit → Option HouseholdSettings → Option HouseholdSettings
edited_if e none = none
edited_if e (some prev) = some (edited e prev)

-- `if (key === "language") setLang(value)`
abbrev speak : Edit → LangState → LangState
speak (language l) s = set_lang (lang_of l) s
speak e s = s

-- `update`
unfoldable pub update : Edit → Settings → Settings
update e s =
    schedule_save (patch_of e)
      (record s { settings = edited_if e s.settings; lang = speak e s.lang })

-- The effect on `open`.
unfoldable pub set_shown : Bool → Settings → Settings
set_shown true s = with_request load (record s { is_shown = true; loaded = false })
set_shown false s =
    let closed : Settings = record s { is_shown = false } in
    if is_empty_patch s.pending then closed else flush closed

-- `if (toSend.language) setLang(next.language)`
abbrev speak_next : Option Language → HouseholdSettings → LangState → LangState
speak_next none next s = s
speak_next (some l) next s = set_lang (lang_of next.language) s

-- What the server has stored after a request.
abbrev pub stored_by : Request → HouseholdSettings → HouseholdSettings
stored_by load v = v
stored_by (save p) v = applied p v

-- The answer of a server that has these settings.
abbrev pub answer_of : Request → HouseholdSettings → Answer
answer_of load v = loaded_with v
answer_of (save p) v = saved_as p.language v

abbrev pub remove_at {ℓ} : {A : Type ℓ} → ℕ → List A → List A
remove_at i [] = []
remove_at zero (x ∷ xs) = xs
remove_at (suc i) (x ∷ xs) = x ∷ remove_at i xs

-- The request at an index reaches the server.
abbrev pub on_request : Option Request → ℕ → Settings → Settings
on_request none i s = s
on_request (some r) i s = record s {
  requests = remove_at i s.requests;
  server = stored_by r s.server;
  answers = s.answers ++ answer_of r (stored_by r s.server) ∷ [];
}

-- `then` of `getSettings` and of `updateSettings`
abbrev pub receive : Answer → Settings → Settings
receive (loaded_with v) s = record s { settings = some v; loaded = true }
receive (saved_as l v) s = record s { settings = some v; lang = speak_next l v s.lang }

-- The answer at an index reaches the page.
abbrev pub on_answer : Option Answer → ℕ → Settings → Settings
on_answer none i s = s
on_answer (some a) i s = receive a (record s { answers = remove_at i s.answers })

-- The request at an index fails before the server has it.
abbrev pub on_refusal : Text → Option Request → ℕ → Settings → Settings
on_refusal message none i s = s
on_refusal message (some r) i s = record s {
  requests = remove_at i s.requests;
  errors = s.errors ++ message ∷ [];
}

-- The answer at an index is lost on its way.
abbrev pub on_loss : Text → Option Answer → ℕ → Settings → Settings
on_loss message none i s = s
on_loss message (some a) i s = record s {
  answers = remove_at i s.answers;
  errors = s.errors ++ message ∷ [];
}

pub data Event : Type 0 where
  edit : Edit → Event
  timer_ends : Event
  -- by the index of the request or of the answer
  stored answered : ℕ → Event
  refused lost : ℕ → Text → Event
  toggled : Bool → Event

unfoldable pub step : Event → Settings → Settings
step (edit e) s = update e s
step timer_ends s = if s.timer then flush s else s
step (stored i) s = on_request (get_elem? s.requests i) i s
step (answered i) s = on_answer (get_elem? s.answers i) i s
step (refused i message) s = on_refusal message (get_elem? s.requests i) i s
step (lost i message) s = on_loss message (get_elem? s.answers i) i s
step (toggled b) s = set_shown b s

abbrev pub run : List Event → Settings → Settings
run [] s = s
run (e ∷ es) s = run es (step e s)
