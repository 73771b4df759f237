-- ===== src/Session/Alone.antt =====
-- One stream at a time.
use veckomenyn.Base.{
  subst, ℕ, ◌+◌, ◌≡◌, ◌≢◌, refl, ap, sym, ◌∙◌, Bool, true, false, ◌||◌, Option, none, some, List,
  [], ◌∷◌, Text, length, length-append, All, All-append, is_some, is_empty, trim, arith, Bool-cases,
  Option-cases, inl, inr,
}
use veckomenyn.Chat.{
  AgentEvent, EventType, ChatState, truthy, tool_call, tool_result, apply_agent_event,
}
use veckomenyn.Api.Weeks.{ChatRequest}
use veckomenyn.Session.{
  Session, Stream, Event, submit, stop, arrives, started, ends, send, send_if, submitted, cancel,
  on_meta_of, highlight, reload, handle_agent_event, finish, idle, step, run, set_day,
  is_add_dinner, mutates,
}

abbrev pub one_if : Bool → ℕ
one_if true = 1
one_if false = 0

-- The page is busy exactly while there is a stream, and no message that was sent is empty.
pub record IsAlone (s : Session) : Type 0 where
  pub streams : s.busy ≡ is_some s.stream
  pub spoken : All (λ (r : ChatRequest). r.message ≢ []) s.requests

-- The parts of a session that an event of the agent leaves as they are.
record Same (s t : Session) : Type 0 where
  busy : t.busy ≡ s.busy
  stream : t.stream ≡ s.stream
  requests : t.requests ≡ s.requests

Same-IsAlone : (s t : Session) → Same s t → IsAlone s → IsAlone t
Same-IsAlone s t h a = record {
  streams = h.busy ∙ a.streams ∙ ap is_some (sym h.stream);
  spoken = subst (All (λ (r : ChatRequest). r.message ≢ [])) (sym h.requests) a.spoken;
}

is_empty-filled : (t : Text) → is_empty t ≡ false → t ≢ []
is_empty-filled [] h e = ground (arith, h)
is_empty-filled (c ∷ t) h e = ground (arith, ap length e)

module _ (day_of : Text → Option Text) where
  set_day-Same : (o : Option Text) (s : Session) → Same s (set_day o s)
  set_day-Same none s = record { busy = refl; stream = refl; requests = refl }
  set_day-Same (some d) s = record { busy = refl; stream = refl; requests = refl }

  highlight-Same :
      (ev : AgentEvent) (e : EventType) (s : Session) → Same s (highlight day_of ev e s)
  highlight-Same ev tool_call s = elim (Bool-cases (is_add_dinner ev.tool)) [
    | inl dinner ↦ elim (Option-cases (truthy ev.input)) [
      | inl nothing ↦ rw (dinner, nothing) (record { busy = refl; stream = refl; requests = refl })
      | inr (input, e) ↦ rw (dinner, e) (set_day-Same (day_of input) s)
    ]
    | inr other ↦ rw other (record { busy = refl; stream = refl; requests = refl })
  ]
  highlight-Same ev _ s = record { busy = refl; stream = refl; requests = refl }

  reload-Same : (ev : AgentEvent) (e : EventType) (s : Session) → Same s (reload day_of ev e s)
  reload-Same ev tool_result s = elim (Bool-cases (mutates ev.tool)) [
    | inl changed ↦ rw changed (record { busy = refl; stream = refl; requests = refl })
    | inr other ↦ rw other (record { busy = refl; stream = refl; requests = refl })
  ]
  reload-Same ev _ s = record { busy = refl; stream = refl; requests = refl }

  handle_agent_event-Same :
      (ev : AgentEvent) (s : Session) → Same s (handle_agent_event day_of ev s)
  unfolding handle_agent_event
  handle_agent_event-Same ev s =
      let t : Session = record s { chat = apply_agent_event ev s.chat } in
      let u = highlight day_of ev ev.type t in
      let h = highlight-Same ev ev.type t in
      let k = reload-Same ev ev.type u in
      record {
        busy = k.busy ∙ h.busy;
        stream = k.stream ∙ h.stream;
        requests = k.requests ∙ h.requests;
      }

  on_meta_of-Same : (o : Option Stream) (id : Option ℕ) (s : Session) → Same s (on_meta_of o id s)
  on_meta_of-Same none id s = record { busy = refl; stream = refl; requests = refl }
  on_meta_of-Same (some run) id s = elim (Bool-cases (is_some run.captured)) [
    | inl known ↦ rw known (record { busy = refl; stream = refl; requests = refl })
    | inr fresh ↦ rw fresh (record { busy = refl; stream = refl; requests = refl })
  ]

send-IsAlone :
    (week_id : Option ℕ) (message : Text) (s : Session)
    → message ≢ []
    → IsAlone s
    → IsAlone (send week_id message s)
unfolding send
send-IsAlone week_id message s filled h = elim (Bool-cases s.busy) [
  | inl busy ↦ rw busy (record { streams = sym busy ∙ h.streams; spoken = h.spoken })
  | inr idle ↦ rw idle (record {
    streams = refl;
    spoken = All-append (λ (r : ChatRequest). r.message ≢ []) s.requests _ h.spoken (filled, tt);
  })
]

submit-IsAlone :
    (week_id : Option ℕ) (input : Text) (s : Session)
    → IsAlone s
    → IsAlone (send_if week_id (submitted input s.busy) s)
unfolding submitted
submit-IsAlone week_id input s h = elim (Bool-cases (is_empty (trim input) || s.busy)) [
  | inl refused ↦ rw refused h
  | inr taken ↦
      rw taken (send-IsAlone week_id (trim input) s (is_empty-filled (trim input) (ground arith)) h)
]

cancel-IsAlone : (s : Session) → IsAlone s → IsAlone (cancel s)
unfolding cancel
cancel-IsAlone s h = elim (Option-cases s.stream) [
  | inl idle ↦ rw idle (record { streams = h.streams ∙ ap is_some idle; spoken = h.spoken })
  | inr (current, e) ↦ rw e (record { streams = h.streams ∙ ap is_some e; spoken = h.spoken })
]

module _ (day_of : Text → Option Text) where
  step-IsAlone : (e : Event day_of) (s : Session) → IsAlone s → IsAlone (step day_of e s)
  unfolding step finish
  step-IsAlone (submit week_id input) s h = submit-IsAlone week_id input s h
  step-IsAlone stop s h = cancel-IsAlone s h
  step-IsAlone (arrives ev) s h = elim (Bool-cases (is_some s.stream)) [
    | inl there ↦
        rw there
          (Same-IsAlone s (handle_agent_event day_of ev s) (handle_agent_event-Same day_of ev s) h)
    | inr idle ↦ rw idle h
  ]
  step-IsAlone (started id) s h = Same-IsAlone s _ (on_meta_of-Same day_of s.stream id s) h
  step-IsAlone (ends outcome) s h = elim (Bool-cases (is_some s.stream)) [
    | inl there ↦ rw there (record { streams = refl; spoken = h.spoken })
    | inr idle ↦ rw idle h
  ]

  run-IsAlone : (es : List (Event day_of)) (s : Session) → IsAlone s → IsAlone (run day_of es s)
  run-IsAlone [] s h = h
  run-IsAlone (e ∷ es) s h = run-IsAlone es (step day_of e s) (step-IsAlone e s h)

-- From a page without a stream on, whatever the user submits, whenever he presses stop and however the
-- streams arrive and end: the page is busy exactly while there is a stream, and no blank message was sent.
pub run-idle-IsAlone :
    (day_of : Text → Option Text) (es : List (Event day_of)) (chat : ChatState)
    → IsAlone (run day_of es (idle chat))
run-idle-IsAlone day_of es chat =
    run-IsAlone day_of es (idle chat) (record { streams = refl; spoken = tt })

-- The streams that have ended.
abbrev pub ended : (day_of : Text → Option Text) → List (Event day_of) → Session → ℕ
ended day_of [] s = 0
ended day_of (ends outcome ∷ es) s =
    one_if (is_some s.stream) + ended day_of es (step day_of (ends outcome) s)
ended day_of (e ∷ es) s = ended day_of es (step day_of e s)

module _ (day_of : Text → Option Text) where
  -- The requests that were sent but have not ended.
  abbrev outstanding : Session → ℕ
  outstanding s = one_if (is_some s.stream)

  -- The requests that an event adds, from those that end and those that are outstanding.
  abbrev IsCounted : Event day_of → Session → Type 0
  IsCounted e s =
      length (step day_of e s).requests + outstanding s
      ≡ length s.requests + ended day_of (e ∷ []) s + outstanding (step day_of e s)

  Same-count :
      (s t : Session)
      → Same s t
      → length t.requests + outstanding s ≡ length s.requests + 0 + outstanding t
  Same-count s t h = rw (h.requests, h.stream) (omega arith)

  send-count :
      (week_id : Option ℕ) (message : Text) (s : Session)
      → IsAlone s
      → length (send week_id message s).requests + outstanding s
        ≡ length s.requests + 0 + outstanding (send week_id message s)
  unfolding send
  send-count week_id message s h = elim (Bool-cases s.busy) [
    | inl busy ↦ rw busy (omega arith)
    | inr idle ↦
        let none_there : is_some s.stream ≡ false = sym h.streams ∙ idle in
        rw (idle, none_there)
          (omega (
            arith,
            length-append s.requests (
                record { conversation_id = s.conversation_id; week_id = week_id; message = message }
                ∷ []),
          ))
  ]

  step-IsCounted : (e : Event day_of) (s : Session) → IsAlone s → IsCounted e s
  unfolding step submitted cancel finish
  step-IsCounted (submit week_id input) s h = elim (Bool-cases (is_empty (trim input) || s.busy)) [
    | inl refused ↦ rw refused (omega arith)
    | inr taken ↦ rw taken (send-count week_id (trim input) s h)
  ]
  step-IsCounted stop s h = elim (Option-cases s.stream) [
    | inl none_there ↦ rw none_there (omega arith)
    | inr (current, e) ↦ rw e (omega arith)
  ]
  step-IsCounted (arrives ev) s h = elim (Bool-cases (is_some s.stream)) [
    | inl there ↦ rw there (
        omega (
          arith,
          ap one_if there,
          Same-count s (handle_agent_event day_of ev s) (handle_agent_event-Same day_of ev s),
        ))
    | inr none_there ↦ rw none_there (ground arith)
  ]
  step-IsCounted (started id) s h =
      Same-count s (on_meta_of s.stream id s) (on_meta_of-Same day_of s.stream id s)
  step-IsCounted (ends outcome) s h = elim (Bool-cases (is_some s.stream)) [
    | inl there ↦ rw there (omega arith)
    | inr none_there ↦ rw none_there (ground arith)
  ]

  ended-cons :
      (e : Event day_of) (es : List (Event day_of)) (s : Session)
      → ended day_of (e ∷ es) s ≡ ended day_of (e ∷ []) s + ended day_of es (step day_of e s)
  ended-cons (submit week_id input) es s = omega arith
  ended-cons stop es s = omega arith
  ended-cons (arrives ev) es s = omega arith
  ended-cons (started id) es s = omega arith
  ended-cons (ends outcome) es s = omega arith

  run-count :
      (es : List (Event day_of)) (s : Session)
      → IsAlone s
      → length (run day_of es s).requests + outstanding s
        ≡ length s.requests + ended day_of es s + outstanding (run day_of es s)
  run-count [] s h = omega arith
  run-count (e ∷ es) s h = omega (
    arith,
    step-IsCounted e s h,
    run-count es (step day_of e s) (step-IsAlone day_of e s h),
    ended-cons e es s,
  )

  -- The messages that were sent are those whose stream has ended and, while the page is busy, one more: a
  -- message is sent only after the stream of the one before has ended.
  pub length-run_requests :
      (es : List (Event day_of)) (chat : ChatState)
      → length (run day_of es (idle chat)).requests
        ≡ ended day_of es (idle chat) + one_if (run day_of es (idle chat)).busy
  length-run_requests es chat =
      let h = run-idle-IsAlone day_of es chat in
      rw h.streams
        (omega (arith, run-count es (idle chat) (record { streams = refl; spoken = tt })))
