-- ===== src/Session/Streamed.antt =====
-- From the server's messages to the entries of the chat.
use veckomenyn.Base.{
  ℕ, ◌≡◌, refl, ap, ◌∙◌, false, Option, none, some, List, [], ◌∷◌, ◌++◌, Text, text as lit, All,
  ◌===◌, if◌then◌else◌, Bool-cases, inl, inr, is_some, ===_iff, sym, subst,
}
use veckomenyn.Chat.{AgentEvent, ChatState, apply_all}
use veckomenyn.Session.Fields.{chat-handle_agent_event}
use veckomenyn.Stream.{Delivery, start, read_all}
use veckomenyn.Stream.Chunks.{concat}
use veckomenyn.Stream.Messages.{
  Message, IsSent, wire, handler_for, call_once, calls_of, read_all-wire,
}
use veckomenyn.Session.{Session, Stream, on_meta_of, handle, handle_all}

-- No handler throws.
abbrev pub quiet : {D : Type 0} → Delivery D → Option Text
quiet d = none

-- The events among the messages.
abbrev pub events_of : {D : Type 0} → (D → AgentEvent) → List (Message D) → List AgentEvent
events_of event_of [] = []
events_of event_of (m ∷ ms) =
    let rest = events_of event_of ms in
    if m.event === lit "event" then event_of m.value ∷ rest else rest

module _ {D : Type 0} (parse_json : Text → Option D) (day_of : Text → Option Text)
    (id_of : D → Option ℕ) (event_of : D → AgentEvent) where
  chat-on_meta_of :
      (o : Option Stream) (id : Option ℕ) (s : Session) → (on_meta_of o id s).chat ≡ s.chat
  chat-on_meta_of none id s = refl
  chat-on_meta_of (some run) id s = elim (Bool-cases (is_some run.captured)) [
    | inl known ↦ rw known refl
    | inr fresh ↦ rw fresh refl
  ]

  handle_all-append :
      (ds es : List (Delivery D)) (s : Session)
      → handle_all day_of id_of event_of (ds ++ es) s
        ≡ handle_all day_of id_of event_of es (handle_all day_of id_of event_of ds s)
  handle_all-append [] es s = refl
  handle_all-append (d ∷ ds) es s = handle_all-append ds es (handle day_of id_of event_of d s)

  -- The events that one message stands for.
  chat-deliver :
      (m : Message D) (s : Session)
      → (handle_all day_of id_of event_of
          (call_once parse_json quiet (handler_for parse_json quiet m))
          s).chat
        ≡ apply_all (events_of event_of (m ∷ [])) s.chat
  unfolding handle ◌===◌
  chat-deliver m s = elim (Bool-cases (m.event === lit "event")) [
    | inl event ↦
        let no_end : (m.event === lit "end") ≡ false =
          subst (λ v. (v === lit "end") ≡ false) (sym ((===_iff m.event (lit "event")).0 event))
            refl in
        rw (no_end, event) (chat-handle_agent_event day_of (event_of m.value) s)
    | inr other ↦ elim (Bool-cases (m.event === lit "end")) [
      | inl ends ↦ rw (ends, other) refl
      | inr no_end ↦ elim (Bool-cases (m.event === lit "meta")) [
        | inl meta ↦ rw (meta, no_end, other) (chat-on_meta_of s.stream (id_of m.value) s)
        | inr unknown ↦ rw (unknown, no_end, other) refl
      ]
    ]
  ]

  apply_all-events_of :
      (m : Message D) (ms : List (Message D)) (c : ChatState)
      → apply_all (events_of event_of (m ∷ ms)) c
        ≡ apply_all (events_of event_of ms) (apply_all (events_of event_of (m ∷ [])) c)
  apply_all-events_of m ms c = elim (Bool-cases (m.event === lit "event")) [
    | inl event ↦ rw event refl
    | inr other ↦ rw other refl
  ]

  chat-calls_of :
      (ms : List (Message D)) (s : Session)
      → (handle_all day_of id_of event_of (calls_of parse_json quiet ms) s).chat
        ≡ apply_all (events_of event_of ms) s.chat
  chat-calls_of [] s = refl
  chat-calls_of (m ∷ ms) s =
      let calls = call_once parse_json quiet (handler_for parse_json quiet m) in
      let t = handle_all day_of id_of event_of calls s in
      ap (λ (u : Session). u.chat) (handle_all-append calls (calls_of parse_json quiet ms) s)
      ∙ chat-calls_of ms t
      ∙ ap (apply_all (events_of event_of ms)) (chat-deliver m s)
      ∙ sym (apply_all-events_of m ms s.chat)

  -- Whatever messages the server writes for an answer, and however the network cuts their text into
  -- chunks: the chat that comes of what `streamChat` hands over is the chat in which the events among
  -- the messages were applied, in order.
  pub chat-handle_all :
      (ms : List (Message D)) (chunks : List Text) (s : Session)
      → All (IsSent parse_json quiet) ms
      → concat chunks ≡ wire parse_json quiet ms
      → (handle_all day_of id_of event_of (read_all parse_json quiet start chunks).delivered s).chat
        ≡ apply_all (events_of event_of ms) s.chat
  chat-handle_all ms chunks s h e =
      ap (λ r. (handle_all day_of id_of event_of r.delivered s).chat)
        (read_all-wire parse_json quiet ms chunks h e)
      ∙ chat-calls_of ms s
