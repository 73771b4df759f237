-- ===== src/Session.antt =====
-- web/src/App.tsx, `send`, `handleAgentEvent` and `cancel`: a message of the chat, from the request to
-- the end of its stream. Stream reads the answer, Chat applies the events to the entries.
pub mod Fields
pub mod Streamed
pub mod Linked
pub mod Alone
pub mod Switched
mod Tests
use veckomenyn.Base.{
  ℕ, ◌+◌, Bool, true, false, not, ◌&&◌, any, is_some, is_empty, trim, ◌||◌, Option, none, some,
  List, [], ◌∷◌, ◌++◌, Text, text as lit, ◌===◌, if◌then◌else◌,
}
use veckomenyn.Chat.{
  AgentEvent, EventType, tool_call, tool_result, ChatEntry, user, error, cancelled, ChatState, push,
  truthy, apply_agent_event,
}
use veckomenyn.Stream.{Delivery, on_meta, on_event, on_end, on_error}
use veckomenyn.Api.Http.{Outcome, returns, throws, Done}
use veckomenyn.Api.Weeks.{ChatRequest}

abbrev pub mutating_tools : List Text
mutating_tools =
    lit "create_week"
    ∷ lit "update_week"
    ∷ lit "add_dinner"
    ∷ lit "update_dinner"
    ∷ lit "delete_dinner"
    ∷ lit "add_exception"
    ∷ lit "record_retrospective"
    ∷ lit "update_preference"
    ∷ lit "update_household_settings"
    ∷ []

-- What one run of `send` holds on to: the conversation as it was when the message was sent, and whether
-- its signal is aborted.
pub record Stream : Type 0 where
  pub captured : Option ℕ
  pub aborted : Bool

-- `chat` holds the entries, and the indices that the refs keep for `applyAgentEvent`. `stream` is the run
-- of `send` that `abortRef` belongs to, `load_key` counts the calls of `bumpLoad`, and `requests` are
-- the bodies of the requests that were sent.
pub record Session : Type 0 where
  pub chat : ChatState
  pub busy : Bool
  pub chat_open : Bool
  pub conversation_id : Option ℕ
  pub active_day : Option Text
  pub load_key : ℕ
  pub stream : Option Stream
  pub requests : List ChatRequest

-- A page on which nothing was sent.
abbrev pub idle : ChatState → Session
idle chat = record {
  chat = chat;
  busy = false;
  chat_open = false;
  conversation_id = none;
  active_day = none;
  load_key = 0;
  stream = none;
  requests = [];
}

abbrev pub with_message : Text → ChatState → ChatState
with_message message c = record {
  entries = c.entries ++ user message ∷ [];
  assistant_index = none;
  tools_by_id = [];
}

-- `send`, up to the `await`
unfoldable pub send : (week_id : Option ℕ) → Text → Session → Session
send week_id message s = if s.busy then s else record s {
  chat = with_message message s.chat;
  busy = true;
  chat_open = true;
  stream = some (record { captured = s.conversation_id; aborted = false });
  requests =
      s.requests
      ++ record { conversation_id = s.conversation_id; week_id = week_id; message = message } ∷ [];
}

-- `submit` of web/src/components/ChatDrawer.tsx: the message that is sent, if one is.
unfoldable pub submitted : Text → Bool → Option Text
submitted input busy = if is_empty (trim input) || busy then none else some (trim input)

abbrev pub send_if : (week_id : Option ℕ) → Option Text → Session → Session
send_if week_id none s = s
send_if week_id (some message) s = send week_id message s

-- `onMeta` of a run
abbrev pub on_meta_of : Option Stream → Option ℕ → Session → Session
on_meta_of none id s = s
on_meta_of (some run) id s = if is_some run.captured then s else record s { conversation_id = id }

abbrev pub is_mutating : Text → Bool
is_mutating name = any (λ known. known === name) mutating_tools

-- `ev.tool && MUTATING_TOOLS.has(ev.tool)`
abbrev pub mutates : Option Text → Bool
mutates none = false
mutates (some name) = not (is_empty name) && is_mutating name

abbrev pub is_add_dinner : Option Text → Bool
is_add_dinner none = false
is_add_dinner (some name) = name === lit "add_dinner"

abbrev pub set_day : Option Text → Session → Session
set_day none s = s
set_day (some day) s = record s { active_day = some day }

-- `cancel`
unfoldable pub cancel : Session → Session
cancel s = elim s.stream [
  | none ↦ s
  | some run ↦ record s { stream = some (record run { aborted = true }) }
]

-- The end of `send`: the stream ended, or it threw.
abbrev pub said : Option Stream → Outcome Done → ChatState → ChatState
said run (returns _) c = c
said none (throws message) c = push (error message) c
said (some run) (throws message) c =
    if run.aborted then push cancelled c else push (error message) c

unfoldable pub finish : Outcome Done → Session → Session
finish outcome s = record s {
  chat = said s.stream outcome s.chat;
  stream = none;
  busy = false;
  active_day = none;
  load_key = s.load_key + 1;
}

-- `day_of` is the `day_date` of the JSON of an input, where it can be read and has one that is not empty.
module _ (day_of : Text → Option Text) where
  abbrev pub highlight : AgentEvent → EventType → Session → Session
  highlight ev tool_call s =
      if is_add_dinner ev.tool
      then elim (truthy ev.input) [ none ↦ s | some input ↦ set_day (day_of input) s ]
      else s
  highlight ev _ s = s

  abbrev pub reload : AgentEvent → EventType → Session → Session
  reload ev tool_result s = if mutates ev.tool then record s { load_key = s.load_key + 1 } else s
  reload ev _ s = s

  unfoldable pub handle_agent_event : AgentEvent → Session → Session
  handle_agent_event ev s =
      reload ev ev.type (highlight ev ev.type (record s { chat = apply_agent_event ev s.chat }))

  -- The calls that `streamChat` makes. `id_of` and `event_of` are the casts of the JSON of a frame;
  -- `send` gives no handlers for the end and for errors.
  module _ {D : Type 0} (id_of : D → Option ℕ) (event_of : D → AgentEvent) where
    unfoldable pub handle : Delivery D → Session → Session
    unfolding handle_agent_event
    handle (on_meta d) s = on_meta_of s.stream (id_of d) s
    handle (on_event d) s = handle_agent_event (event_of d) s
    handle (on_end d) s = s
    handle (on_error e) s = s

    abbrev pub handle_all : List (Delivery D) → Session → Session
    handle_all [] s = s
    handle_all (d ∷ ds) s = handle_all ds (handle d s)

  -- What can happen to the chat of a page: the user submits an input or presses stop, an event or the
  -- identifier of the conversation arrives, the stream ends.
  pub data Event : Type 0 where
    submit : (week_id : Option ℕ) (input : Text) → Event
    stop : Event
    arrives : AgentEvent → Event
    started : Option ℕ → Event
    ends : Outcome Done → Event

  -- Nothing arrives of a stream and nothing ends where there is none.
  unfoldable pub step : Event → Session → Session
  unfolding submitted send cancel handle_agent_event finish
  step (submit week_id input) s = send_if week_id (submitted input s.busy) s
  step stop s = cancel s
  step (arrives ev) s = if is_some s.stream then handle_agent_event ev s else s
  step (started id) s = on_meta_of s.stream id s
  step (ends outcome) s = if is_some s.stream then finish outcome s else s

  abbrev pub run : List Event → Session → Session
  run [] s = s
  run (e ∷ es) s = run es (step e s)

-- `setChatEntries` and `setConversationID` of the effect that loads the conversation of another week. The
-- stream, and the indices that it writes by, stay.
unfoldable pub rehydrate : List ChatEntry → Option ℕ → Session → Session
rehydrate entries id s = record s {
  chat = record s.chat { entries = entries };
  conversation_id = id;
}
