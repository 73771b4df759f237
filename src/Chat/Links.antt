-- ===== src/Chat/Links.antt =====
-- The indices that the chat keeps: of the assistant's entry and of each tool call.
use veckomenyn.Base.{
  ℕ, zero, suc, ◌≡◌, refl, ap, sym, ◌∙◌, subst, Option, none, some, List, [], ◌∷◌, ◌++◌, Text,
  text as lit, arith, length, get_elem?, get_elem?-length, Option-cases, Bool-cases, inl, inr,
  ◌===◌,
}
use veckomenyn.Base.Assoc.{lookup, lookup-insert}
use veckomenyn.Chat.{
  EventType, AgentEvent, ChatEntry, assistant, tool, cancelled, push, ChatState, truthy, or_text,
  entry_at, add_text, remember, find_tool, add_result, apply_by_type, apply_agent_event, apply_all,
}
use veckomenyn.Chat.History.{Extends, Extends-push, Extends-add_text, Extends-add_result}

abbrev pub IsAssistant : Option ChatEntry → Type 0
IsAssistant (some (assistant t)) = Unit
IsAssistant _ = ⊥

abbrev pub IsTool : Option ChatEntry → Type 0
IsTool (some (tool n i r e)) = Unit
IsTool _ = ⊥

-- The index of the assistant is that of an assistant's entry, and each known tool id has the index
-- of a tool call.
pub record IsLinked (s : ChatState) : Type 0 where
  pub assistant_entry : (i : ℕ) → s.assistant_index ≡ some i → IsAssistant (get_elem? s.entries i)
  pub tool_entry :
      (id : Text) (i : ℕ) → lookup id s.tools_by_id ≡ some i → IsTool (get_elem? s.entries i)

IsAssistant-Extends :
    (ev : AgentEvent) (xs ys : List ChatEntry) (i : ℕ)
    → Extends ev xs ys
    → IsAssistant (get_elem? xs i)
    → IsAssistant (get_elem? ys i)
IsAssistant-Extends ev [] ys i g h = elim h [ ]
IsAssistant-Extends ev (x ∷ xs) [] i g h = elim g [ ]
IsAssistant-Extends ev (assistant s ∷ xs) (assistant t ∷ ys) zero g h = tt
IsAssistant-Extends ev (assistant s ∷ xs) (y ∷ ys) zero g h = cc (g.0)
IsAssistant-Extends ev (x ∷ xs) (y ∷ ys) zero g h = elim h [ ]
IsAssistant-Extends ev (x ∷ xs) (y ∷ ys) (suc i) g h = IsAssistant-Extends ev xs ys i g.1 h

IsTool-Extends :
    (ev : AgentEvent) (xs ys : List ChatEntry) (i : ℕ)
    → Extends ev xs ys
    → IsTool (get_elem? xs i)
    → IsTool (get_elem? ys i)
IsTool-Extends ev [] ys i g h = elim h [ ]
IsTool-Extends ev (x ∷ xs) [] i g h = elim g [ ]
IsTool-Extends ev (tool n k r x ∷ xs) (tool n' k' r' x' ∷ ys) zero g h = tt
IsTool-Extends ev (tool n k r x ∷ xs) (y ∷ ys) zero g h = cc (g.0)
IsTool-Extends ev (x ∷ xs) (y ∷ ys) zero g h = elim h [ ]
IsTool-Extends ev (x ∷ xs) (y ∷ ys) (suc i) g h = IsTool-Extends ev xs ys i g.1 h

-- A state whose entries extend those of a linked one, under the same indices.
abbrev KeepsIndices : AgentEvent → ChatState → ChatState → Type 0
KeepsIndices ev s s' =
    Extends ev s.entries s'.entries
    × (s'.assistant_index ≡ s.assistant_index)
    × (s'.tools_by_id ≡ s.tools_by_id)

IsLinked-keep :
    (ev : AgentEvent) (s s' : ChatState) → KeepsIndices ev s s' → IsLinked s → IsLinked s'
IsLinked-keep ev s s' (grown, same_index, same_tools) h = record {
  assistant_entry = λ i e.
      IsAssistant-Extends ev s.entries s'.entries i grown
        (h.assistant_entry i (sym same_index ∙ e));
  tool_entry = λ id i e.
      IsTool-Extends ev s.entries s'.entries i grown
        (h.tool_entry id i (ap (lookup id) (sym same_tools) ∙ e));
}

IsTool-entry-Extends :
    (ev : AgentEvent) (s : ChatState) (ys : List ChatEntry)
    → Extends ev s.entries ys
    → IsLinked s
    → (id : Text) (i : ℕ) → lookup id s.tools_by_id ≡ some i
    → IsTool (get_elem? ys i)
IsTool-entry-Extends ev s ys grown h id i e =
    IsTool-Extends ev s.entries ys i grown (h.tool_entry id i e)

IsLinked-new_text :
    (ev : AgentEvent) (t : Text) (s : ChatState) → IsLinked s → IsLinked (add_text t none s)
IsLinked-new_text ev t s h = record {
  assistant_entry = λ i e.
      let last : length s.entries ≡ i = cc in
      subst (λ k. IsAssistant (get_elem? (s.entries ++ assistant t ∷ []) k)) last
        (rw get_elem?-length tt);
  tool_entry =
      IsTool-entry-Extends ev s (s.entries ++ assistant t ∷ [])
        (Extends-push ev s.entries (assistant t)) h;
}

IsLinked-add_text :
    (ev : AgentEvent) (t : Text) (found : Option ChatEntry) (s : ChatState)
    → entry_at s.entries s.assistant_index ≡ found
    → IsLinked s
    → IsLinked (add_text t found s)
IsLinked-add_text ev t none s e h = IsLinked-new_text ev t s h
IsLinked-add_text ev t (some (assistant before)) s e h =
    IsLinked-keep ev s (add_text t (some (assistant before)) s)
      (Extends-add_text ev t (some (assistant before)) s e, refl, refl) h
IsLinked-add_text ev t (some _) s e h = IsLinked-new_text ev t s h

IsLinked-tool_call :
    (ev : AgentEvent) (call : ChatEntry) (id : Option Text) (s : ChatState)
    → IsTool (some call)
    → IsLinked s
    → IsLinked (record {
      entries = s.entries ++ call ∷ [];
      assistant_index = none;
      tools_by_id = remember id (length s.entries) s.tools_by_id;
    })
IsLinked-tool_call ev call none s c h = record {
  assistant_entry = λ i e. cc;
  tool_entry =
      IsTool-entry-Extends ev s (s.entries ++ call ∷ []) (Extends-push ev s.entries call) h;
}
IsLinked-tool_call ev call (some id) s c h = record {
  assistant_entry = λ i e. cc;
  tool_entry = λ j i e. elim (Bool-cases (id === j)) [
    | inl same ↦
        let last : length s.entries ≡ i =
          ground (arith, lookup-insert id j (length s.entries) s.tools_by_id) in
        subst (λ k. IsTool (get_elem? (s.entries ++ call ∷ []) k)) last (rw get_elem?-length c)
    | inr other ↦
        IsTool-entry-Extends ev s (s.entries ++ call ∷ []) (Extends-push ev s.entries call) h j i
          (ground (arith, lookup-insert id j (length s.entries) s.tools_by_id))
  ];
}

IsLinked-add_result :
    (ev : AgentEvent) (i : ℕ) (found : Option ChatEntry) (s : ChatState)
    → get_elem? s.entries i ≡ found
    → IsLinked s
    → IsLinked (add_result ev i found s)
IsLinked-add_result ev i (some (tool n input r x)) s e h =
    IsLinked-keep ev s (add_result ev i (some (tool n input r x)) s)
      (Extends-add_result ev i (some (tool n input r x)) s e, refl, refl) h
IsLinked-add_result ev i _ s e h = h

pub IsLinked-push :
    (ev : AgentEvent) (e : ChatEntry) (s : ChatState) → IsLinked s → IsLinked (push e s)
IsLinked-push ev e s h = IsLinked-keep ev s (push e s) (Extends-push ev s.entries e, refl, refl) h

apply_by_type-IsLinked :
    (type : EventType) (ev : AgentEvent) (s : ChatState)
    → IsLinked s
    → IsLinked (apply_by_type type ev s)
unfolding apply_by_type
apply_by_type-IsLinked EventType.text ev s h = elim (Option-cases (truthy ev.text)) [
  | inl e ↦ rw e h
  | inr (t, e) ↦ rw e (IsLinked-add_text ev t (entry_at s.entries s.assistant_index) s refl h)
]
apply_by_type-IsLinked EventType.tool_call_started ev s h = h
apply_by_type-IsLinked EventType.tool_call ev s h =
    IsLinked-tool_call ev
      (tool (or_text ev.tool (lit "tool")) (or_text ev.input (lit "{}")) none none)
      (truthy ev.tool_id) s tt h
apply_by_type-IsLinked EventType.tool_result ev s h =
    elim (Option-cases (find_tool (truthy ev.tool_id) s.tools_by_id)) [
      | inl e ↦ rw e h
      | inr (i, e) ↦ rw e (IsLinked-add_result ev i (get_elem? s.entries i) s refl h)
    ]
apply_by_type-IsLinked EventType.error ev s h = IsLinked-push ev _ s h
apply_by_type-IsLinked EventType.cancelled ev s h = IsLinked-push ev cancelled s h
apply_by_type-IsLinked EventType.done ev s h = h

pub apply_agent_event-IsLinked :
    (ev : AgentEvent) (s : ChatState) → IsLinked s → IsLinked (apply_agent_event ev s)
unfolding apply_agent_event
apply_agent_event-IsLinked ev s h = apply_by_type-IsLinked ev.type ev s h

-- Whatever events arrive, a state that is linked stays so.
pub apply_all-IsLinked :
    (evs : List AgentEvent) (s : ChatState) → IsLinked s → IsLinked (apply_all evs s)
apply_all-IsLinked [] s h = h
apply_all-IsLinked (ev ∷ evs) s h =
    apply_all-IsLinked evs (apply_agent_event ev s) (apply_agent_event-IsLinked ev s h)
