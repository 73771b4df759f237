-- ===== src/Session/Linked.antt =====
-- The indices that a session keeps for the entries of the chat.
use veckomenyn.Base.{
  ℕ, sym, subst, Option, none, some, List, [], ◌∷◌, Text, Bool, true, false, is_some, if◌then◌else◌,
  Bool-cases, Option-cases, inl, inr,
}
use veckomenyn.Base.Assoc.{lookup}
use veckomenyn.Api.Http.{Outcome, returns, throws, Done}
use veckomenyn.Chat.{AgentEvent, ChatEntry, ChatState, error, cancelled}
use veckomenyn.Chat.Replay.{delta}
use veckomenyn.Chat.Links.{IsLinked, IsLinked-push, apply_agent_event-IsLinked}
use veckomenyn.Session.{
  Session, Stream, idle, with_message, send, submitted, send_if, cancel, on_meta_of, said, finish,
  handle_agent_event, Event, submit, stop, arrives, started, ends, step, run,
}
use veckomenyn.Session.Fields.{chat-handle_agent_event}

-- A page whose entries were loaded, and on which nothing was sent.
abbrev pub opened : List ChatEntry → Session
opened entries = idle (record { entries = entries; assistant_index = none; tools_by_id = [] })

with_message-IsLinked : (message : Text) (c : ChatState) → IsLinked (with_message message c)
unfolding lookup
with_message-IsLinked message c = record { assistant_entry = λ i e. cc; tool_entry = λ id i e. cc }

send-IsLinked :
    (week_id : Option ℕ) (o : Option Text) (s : Session)
    → IsLinked s.chat
    → IsLinked (send_if week_id o s).chat
unfolding send
send-IsLinked week_id none s h = h
send-IsLinked week_id (some message) s h = elim (Bool-cases s.busy) [
  | inl e ↦ rw e h
  | inr e ↦ rw e (with_message-IsLinked message s.chat)
]

cancel-IsLinked : (s : Session) → IsLinked s.chat → IsLinked (cancel s).chat
unfolding cancel
cancel-IsLinked s h = elim (Option-cases s.stream) [ inl e ↦ rw e h | inr (r, e) ↦ rw e h ]

arrives-IsLinked :
    (day_of : Text → Option Text) (ev : AgentEvent) (b : Bool) (s : Session)
    → IsLinked s.chat
    → IsLinked (if b then handle_agent_event day_of ev s else s).chat
arrives-IsLinked day_of ev true s h =
    subst IsLinked (sym (chat-handle_agent_event day_of ev s))
      (apply_agent_event-IsLinked ev s.chat h)
arrives-IsLinked day_of ev false s h = h

started-IsLinked :
    (o : Option Stream) (id : Option ℕ) (s : Session)
    → IsLinked s.chat
    → IsLinked (on_meta_of o id s).chat
started-IsLinked none id s h = h
started-IsLinked (some r) id s h = elim (Bool-cases (is_some r.captured)) [
  | inl e ↦ rw e h
  | inr e ↦ rw e h
]

said-IsLinked :
    (o : Option Stream) (outcome : Outcome Done) (c : ChatState)
    → IsLinked c
    → IsLinked (said o outcome c)
said-IsLinked o (returns d) c h = h
said-IsLinked none (throws message) c h = IsLinked-push (delta []) (error message) c h
said-IsLinked (some r) (throws message) c h = elim (Bool-cases r.aborted) [
  | inl e ↦ rw e (IsLinked-push (delta []) cancelled c h)
  | inr e ↦ rw e (IsLinked-push (delta []) (error message) c h)
]

ends-IsLinked :
    (outcome : Outcome Done) (b : Bool) (s : Session)
    → IsLinked s.chat
    → IsLinked (if b then finish outcome s else s).chat
unfolding finish
ends-IsLinked outcome true s h = said-IsLinked s.stream outcome s.chat h
ends-IsLinked outcome false s h = h

run-IsLinked_from :
    (day_of : Text → Option Text) (es : List (Event day_of)) (s : Session)
    → IsLinked s.chat
    → IsLinked (run day_of es s).chat
unfolding step
run-IsLinked_from day_of [] s h = h
run-IsLinked_from day_of (submit week_id input ∷ es) s h =
    run-IsLinked_from day_of es (step day_of (submit week_id input) s)
      (send-IsLinked week_id (submitted input s.busy) s h)
run-IsLinked_from day_of (stop ∷ es) s h =
    run-IsLinked_from day_of es (step day_of stop s) (cancel-IsLinked s h)
run-IsLinked_from day_of (arrives ev ∷ es) s h =
    run-IsLinked_from day_of es (step day_of (arrives ev) s)
      (arrives-IsLinked day_of ev (is_some s.stream) s h)
run-IsLinked_from day_of (started id ∷ es) s h =
    run-IsLinked_from day_of es (step day_of (started id) s) (started-IsLinked s.stream id s h)
run-IsLinked_from day_of (ends outcome ∷ es) s h =
    run-IsLinked_from day_of es (step day_of (ends outcome) s)
      (ends-IsLinked outcome (is_some s.stream) s h)

opened-IsLinked : (entries : List ChatEntry) → IsLinked (opened entries).chat
unfolding lookup
opened-IsLinked entries = record { assistant_entry = λ i e. cc; tool_entry = λ id i e. cc }

-- A page is opened with any entries, and no index is kept. Then messages are sent and stopped, events of
-- any kind arrive and streams end, in any order: where the index of the assistant is kept, the entry
-- there is an assistant's, and the entry at the index of each tool id is a tool call.
pub run-IsLinked :
    (day_of : Text → Option Text) (es : List (Event day_of)) (entries : List ChatEntry)
    → IsLinked (run day_of es (opened entries)).chat
run-IsLinked day_of es entries =
    run-IsLinked_from day_of es (opened entries) (opened-IsLinked entries)
