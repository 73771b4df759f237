-- ===== src/Chat/Replay.antt =====
-- Streamed text, and what a second run of one update gives.
use veckomenyn.Base.{
  ℕ, ◌≡◌, ◌≢◌, refl, ap, ◌∙◌, Option, none, some, List, [], ◌∷◌, ◌++◌, Text, arith, length,
  get_elem?, set, get_elem?-length, get_elem?-ge, Option-cases, inl, inr, map, append_assoc,
  append-nil,
}
use veckomenyn.Chat.{
  EventType, AgentEvent, ChatEntry, assistant, tool, ChatState, truthy, entry_at, add_text,
  find_tool, add_result, apply_text, apply_by_type, apply_agent_event, apply_all,
}
use veckomenyn.Stream.Chunks.{concat}

-- A piece of text as the agent sends it.
abbrev pub delta : Text → AgentEvent
delta t = record {
  type = EventType.text;
  text = some t;
  tool = none;
  tool_id = none;
  input = none;
  result = none;
  is_error = none;
}

set_last :
    (xs : List ChatEntry) (e e' : ChatEntry) → set (xs ++ e ∷ []) (length xs) e' ≡ xs ++ e' ∷ []
set_last [] e e' = refl
set_last (x ∷ xs) e e' = ap (λ l. x ∷ l) (set_last xs e e')

-- The state while an assistant's text is last.
abbrev writing : List ChatEntry → Text → ChatState → ChatState
writing xs a s = record {
  entries = xs ++ assistant a ∷ [];
  assistant_index = some (length xs);
  tools_by_id = s.tools_by_id;
}

delta-writing :
    (t a : Text) (xs : List ChatEntry) (s : ChatState)
    → apply_agent_event (delta t) (writing xs a s) ≡ writing xs (a ++ t) s
unfolding apply_agent_event
delta-writing [] a xs s = rw append-nil
delta-writing (c ∷ t) a xs s = rw (get_elem?-length, set_last)

deltas-writing :
    (ts : List Text) (a : Text) (xs : List ChatEntry) (s : ChatState)
    → apply_all (map delta ts) (writing xs a s) ≡ writing xs (a ++ concat ts) s
deltas-writing [] a xs s = rw append-nil
deltas-writing (t ∷ ts) a xs s =
    ap (apply_all (map delta ts)) (delta-writing t a xs s)
    ∙ deltas-writing ts (a ++ t) xs s
    ∙ rw append_assoc

delta_first :
    (t : Text) (s : ChatState)
    → t ≢ []
    → s.assistant_index ≡ none
    → apply_agent_event (delta t) s ≡ writing s.entries t s
unfolding apply_agent_event
delta_first [] s n h = absurd (n refl)
delta_first (c ∷ t) s n h = rw h

-- From a state with no current assistant's entry, as after a message of the user or a tool call,
-- pieces of text of which the first is not empty add one entry that holds them all.
pub deltas_append :
    (t : Text) (ts : List Text) (s : ChatState)
    → t ≢ []
    → s.assistant_index ≡ none
    → (apply_all (map delta (t ∷ ts)) s).entries ≡ s.entries ++ assistant (concat (t ∷ ts)) ∷ []
deltas_append t ts s n h =
    ap (λ (u : ChatState). (apply_all (map delta ts) u).entries) (delta_first t s n h)
    ∙ ap (λ (u : ChatState). u.entries) (deltas-writing ts t s.entries s)

-- The state in which React runs an updater a second time: the entries of before, and the indices,
-- which live outside the state, as the first run left them.
abbrev pub rerun : ChatState → ChatState → ChatState
rerun before after = record after { entries = before.entries }

add_text_again :
    (t : Text) (found : Option ChatEntry) (s : ChatState)
    → entry_at s.entries s.assistant_index ≡ found
    → (apply_text (some t) (rerun s (add_text t found s))).entries ≡ (add_text t found s).entries
add_text_again t none s e = rw (get_elem?-ge s.entries (length s.entries) (omega arith))
add_text_again t (some (assistant before)) s e = rw e
add_text_again t (some _) s e = rw (get_elem?-ge s.entries (length s.entries) (omega arith))

pub tools_by_id-add_result :
    (ev : AgentEvent) (i : ℕ) (found : Option ChatEntry) (s : ChatState)
    → (add_result ev i found s).tools_by_id ≡ s.tools_by_id
tools_by_id-add_result ev i (some (tool n input r x)) s = refl
tools_by_id-add_result ev i _ s = refl

entries-add_result :
    (ev : AgentEvent) (i : ℕ) (found : Option ChatEntry) (u s : ChatState)
    → u.entries ≡ s.entries
    → (add_result ev i found u).entries ≡ (add_result ev i found s).entries
entries-add_result ev i (some (tool n input r x)) u s h =
    ap (λ es. set es i (tool n input ev.result ev.is_error)) h
entries-add_result ev i _ u s h = h

apply_by_type_again :
    (type : EventType) (ev : AgentEvent) (s : ChatState)
    → (apply_by_type type ev (rerun s (apply_by_type type ev s))).entries
      ≡ (apply_by_type type ev s).entries
unfolding apply_by_type
apply_by_type_again EventType.text ev s = elim (Option-cases (truthy ev.text)) [
  | inl e ↦ rw e
  | inr (t, e) ↦ rw e (add_text_again t (entry_at s.entries s.assistant_index) s refl)
]
apply_by_type_again EventType.tool_result ev s =
    elim (Option-cases (find_tool (truthy ev.tool_id) s.tools_by_id)) [
      | inl e ↦ rw e (rw e)
      | inr (i, e) ↦
          rw (e, tools_by_id-add_result, e)
            (entries-add_result ev i (get_elem? s.entries i) _ s refl)
    ]
apply_by_type_again _ ev s = refl

-- React may run the updater of `setChatEntries` twice on the same entries. The second run, with the
-- indices that the first one has changed, gives the same entries.
pub apply_agent_event_again :
    (ev : AgentEvent) (s : ChatState)
    → (apply_agent_event ev (rerun s (apply_agent_event ev s))).entries
      ≡ (apply_agent_event ev s).entries
unfolding apply_agent_event
apply_agent_event_again ev s = apply_by_type_again ev.type ev s
