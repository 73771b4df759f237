-- ===== src/Chat/History.antt =====
-- What an event may change of the entries that are there.
use veckomenyn.Base.{
  ℕ, zero, suc, ◌≡◌, refl, subst, sym, ◌⊎◌, inl, inr, Option, none, some, List, [], ◌∷◌, ◌++◌, Text,
  get_elem?, set, append-nil,
}
use veckomenyn.Chat.{
  EventType, AgentEvent, ChatEntry, assistant, tool, cancelled, ChatState, truthy, entry_at,
  add_text, find_tool, add_result, apply_text, apply_result, apply_by_type, apply_agent_event,
  index_or_zero,
}

-- An assistant's text may be continued, a tool call may take over the result and the error mark of the
-- event; all else stays.
abbrev pub EntryGrows : AgentEvent → ChatEntry → ChatEntry → Type 0
EntryGrows ev (assistant before) (assistant after) = (t : Text) × (after ≡ before ++ t)
EntryGrows ev (tool name input r x) (tool name' input' r' x') =
    (name ≡ name')
    × (input ≡ input')
    × (((r' ≡ r) × (x' ≡ x)) ⊎ ((r' ≡ ev.result) × (x' ≡ ev.is_error)))
EntryGrows ev e e' = e ≡ e'

-- Every entry of the first list is in the second, at the same place, changed by the event at most.
abbrev pub Extends : AgentEvent → List ChatEntry → List ChatEntry → Type 0
Extends ev [] ys = Unit
Extends ev (x ∷ xs) [] = ⊥
Extends ev (x ∷ xs) (y ∷ ys) = EntryGrows ev x y × Extends ev xs ys

EntryGrows-refl : (ev : AgentEvent) (e : ChatEntry) → EntryGrows ev e e
EntryGrows-refl ev (assistant s) = ([], sym (append-nil s))
EntryGrows-refl ev (tool n i r x) = (refl, refl, inl (refl, refl))
EntryGrows-refl ev _ = refl

pub Extends-refl : (ev : AgentEvent) (xs : List ChatEntry) → Extends ev xs xs
Extends-refl ev [] = tt
Extends-refl ev (x ∷ xs) = (EntryGrows-refl ev x, Extends-refl ev xs)

pub Extends-push :
    (ev : AgentEvent) (xs : List ChatEntry) (e : ChatEntry) → Extends ev xs (xs ++ e ∷ [])
Extends-push ev [] e = tt
Extends-push ev (x ∷ xs) e = (EntryGrows-refl ev x, Extends-push ev xs e)

Extends-set :
    (ev : AgentEvent) (xs : List ChatEntry) (k : ℕ) (old new : ChatEntry)
    → get_elem? xs k ≡ some old
    → EntryGrows ev old new
    → Extends ev xs (set xs k new)
Extends-set ev [] k old new e g = tt
Extends-set ev (x ∷ xs) zero old new e g =
    let same : old ≡ x = cc in (subst (λ o. EntryGrows ev o new) same g, Extends-refl ev xs)
Extends-set ev (x ∷ xs) (suc k) old new e g =
    (EntryGrows-refl ev x, Extends-set ev xs k old new e g)

pub get_elem?-entry_at :
    (xs : List ChatEntry) (i : Option ℕ) {e : ChatEntry}
    → entry_at xs i ≡ some e
    → get_elem? xs (index_or_zero i) ≡ some e
get_elem?-entry_at xs none h = cc
get_elem?-entry_at xs (some i) h = h

pub Extends-add_text :
    (ev : AgentEvent) (t : Text) (found : Option ChatEntry) (s : ChatState)
    → entry_at s.entries s.assistant_index ≡ found
    → Extends ev s.entries (add_text t found s).entries
Extends-add_text ev t none s e = Extends-push ev s.entries (assistant t)
Extends-add_text ev t (some (assistant before)) s e =
    Extends-set ev s.entries (index_or_zero s.assistant_index) (assistant before)
      (assistant (before ++ t)) (get_elem?-entry_at s.entries s.assistant_index e) (t, refl)
Extends-add_text ev t (some _) s e = Extends-push ev s.entries (assistant t)

Extends-apply_text :
    (ev : AgentEvent) (t : Option Text) (s : ChatState)
    → Extends ev s.entries (apply_text t s).entries
Extends-apply_text ev none s = Extends-refl ev s.entries
Extends-apply_text ev (some t) s =
    Extends-add_text ev t (entry_at s.entries s.assistant_index) s refl

pub Extends-add_result :
    (ev : AgentEvent) (i : ℕ) (found : Option ChatEntry) (s : ChatState)
    → get_elem? s.entries i ≡ found
    → Extends ev s.entries (add_result ev i found s).entries
Extends-add_result ev i none s e = Extends-refl ev s.entries
Extends-add_result ev i (some (tool n input r x)) s e =
    Extends-set ev s.entries i (tool n input r x) (tool n input ev.result ev.is_error) e
      (refl, refl, inr (refl, refl))
Extends-add_result ev i (some _) s e = Extends-refl ev s.entries

Extends-apply_result :
    (ev : AgentEvent) (i : Option ℕ) (s : ChatState)
    → Extends ev s.entries (apply_result ev i s).entries
Extends-apply_result ev none s = Extends-refl ev s.entries
Extends-apply_result ev (some i) s = Extends-add_result ev i (get_elem? s.entries i) s refl

apply_by_type-Extends :
    (type : EventType) (ev : AgentEvent) (s : ChatState)
    → Extends ev s.entries (apply_by_type type ev s).entries
unfolding apply_by_type
apply_by_type-Extends EventType.text ev s = Extends-apply_text ev (truthy ev.text) s
apply_by_type-Extends EventType.tool_call_started ev s = Extends-refl ev s.entries
apply_by_type-Extends EventType.tool_call ev s = Extends-push ev s.entries _
apply_by_type-Extends EventType.tool_result ev s =
    Extends-apply_result ev (find_tool (truthy ev.tool_id) s.tools_by_id) s
apply_by_type-Extends EventType.error ev s = Extends-push ev s.entries _
apply_by_type-Extends EventType.cancelled ev s = Extends-push ev s.entries cancelled
apply_by_type-Extends EventType.done ev s = Extends-refl ev s.entries

-- Whatever the event and the state, no entry is lost, moved or replaced: an assistant's entry may get
-- more text at its end; a tool call keeps its name and input, and its result and error mark stay or
-- become exactly those of the event; the other entries stay, and new ones are behind them.
pub apply_agent_event-Extends :
    (ev : AgentEvent) (s : ChatState) → Extends ev s.entries (apply_agent_event ev s).entries
unfolding apply_agent_event
apply_agent_event-Extends ev s = apply_by_type-Extends ev.type ev s
