-- ===== src/Session/Fields.antt =====
-- What an event of a stream leaves of a session.
use veckomenyn.Base.{
  ℕ, ◌≡◌, refl, ◌∙◌, Option, none, some, Text, Bool-cases, Option-cases, inl, inr, is_some,
}
use veckomenyn.Chat.{AgentEvent, EventType, truthy, tool_call, tool_result, apply_agent_event}
use veckomenyn.Session.{
  Session, Stream, is_add_dinner, mutates, on_meta_of, highlight, reload, set_day,
  handle_agent_event,
}

chat-set_day : (o : Option Text) (s : Session) → (set_day o s).chat ≡ s.chat
chat-set_day none s = refl
chat-set_day (some d) s = refl

module _ (day_of : Text → Option Text) where
  chat-highlight :
      (ev : AgentEvent) (e : EventType) (s : Session) → (highlight day_of ev e s).chat ≡ s.chat
  chat-highlight ev tool_call s = elim (Bool-cases (is_add_dinner ev.tool)) [
    | inl dinner ↦ elim (Option-cases (truthy ev.input)) [
      | inl nothing ↦ rw (dinner, nothing) refl
      | inr (input, e) ↦ rw (dinner, e) (chat-set_day (day_of input) s)
    ]
    | inr other ↦ rw other refl
  ]
  chat-highlight ev _ s = refl

  chat-reload :
      (ev : AgentEvent) (e : EventType) (s : Session) → (reload day_of ev e s).chat ≡ s.chat
  chat-reload ev tool_result s = elim (Bool-cases (mutates ev.tool)) [
    | inl yes_mutates ↦ rw yes_mutates refl
    | inr other ↦ rw other refl
  ]
  chat-reload ev _ s = refl

  pub chat-handle_agent_event :
      (ev : AgentEvent) (s : Session)
      → (handle_agent_event day_of ev s).chat ≡ apply_agent_event ev s.chat
  unfolding handle_agent_event
  chat-handle_agent_event ev s =
      let t : Session = record s { chat = apply_agent_event ev s.chat } in
      chat-reload ev ev.type (highlight day_of ev ev.type t) ∙ chat-highlight ev ev.type t

  chat_open-set_day : (o : Option Text) (s : Session) → (set_day o s).chat_open ≡ s.chat_open
  chat_open-set_day none s = refl
  chat_open-set_day (some d) s = refl

  chat_open-highlight :
      (ev : AgentEvent) (e : EventType) (s : Session)
      → (highlight day_of ev e s).chat_open ≡ s.chat_open
  chat_open-highlight ev tool_call s = elim (Bool-cases (is_add_dinner ev.tool)) [
    | inl dinner ↦ elim (Option-cases (truthy ev.input)) [
      | inl nothing ↦ rw (dinner, nothing) refl
      | inr (input, e) ↦ rw (dinner, e) (chat_open-set_day (day_of input) s)
    ]
    | inr other ↦ rw other refl
  ]
  chat_open-highlight ev _ s = refl

  chat_open-reload :
      (ev : AgentEvent) (e : EventType) (s : Session)
      → (reload day_of ev e s).chat_open ≡ s.chat_open
  chat_open-reload ev tool_result s = elim (Bool-cases (mutates ev.tool)) [
    | inl yes_mutates ↦ rw yes_mutates refl
    | inr other ↦ rw other refl
  ]
  chat_open-reload ev _ s = refl

  pub chat_open-handle_agent_event :
      (ev : AgentEvent) (s : Session) → (handle_agent_event day_of ev s).chat_open ≡ s.chat_open
  unfolding handle_agent_event
  chat_open-handle_agent_event ev s =
      let t : Session = record s { chat = apply_agent_event ev s.chat } in
      chat_open-reload ev ev.type (highlight day_of ev ev.type t) ∙ chat_open-highlight ev ev.type t

pub chat_open-on_meta_of :
    (o : Option Stream) (id : Option ℕ) (s : Session) → (on_meta_of o id s).chat_open ≡ s.chat_open
chat_open-on_meta_of none id s = refl
chat_open-on_meta_of (some run) id s = elim (Bool-cases (is_some run.captured)) [
  | inl known ↦ rw known refl
  | inr fresh ↦ rw fresh refl
]
