-- ===== src/Chat/Results.antt =====
-- The result of a tool call ends up on the card of the call.
use veckomenyn.Base.{
  ℕ, zero, suc, ◌≡◌, ◌≢◌, refl, ◌∙◌, Bool, Option, none, some, List, [], ◌∷◌, ◌++◌, Text,
  text as lit, arith, length, get_elem?, get_elem?-length, get_elem?-lt, get_elem?-set_self,
  Option-cases, inl, inr, All, ===_iff, ===_refl,
}
use veckomenyn.Base.Assoc.{Assoc, lookup, lookup-insert}
use veckomenyn.Chat.{
  EventType, AgentEvent, ChatEntry, tool, ChatState, truthy, or_text, add_text, find_tool,
  assistant, apply_by_type, apply_agent_event, apply_all, remember,
}
use veckomenyn.Chat.History.{Extends, apply_agent_event-Extends}
use veckomenyn.Chat.Replay.{tools_by_id-add_result}

module _ (id name input : Text) (n : ℕ) where
  -- The entry at `n` is the call `id` of a tool, whatever its result.
  pub record IsCall (s : ChatState) : Type 0 where
    pub result : Option Text
    pub is_error : Option Bool
    pub entry : get_elem? s.entries n ≡ some (tool name input result is_error)
    pub known : lookup id s.tools_by_id ≡ some n

  tool-Extends :
      (ev : AgentEvent) (xs ys : List ChatEntry) (i : ℕ) (r : Option Text) (x : Option Bool)
      → Extends ev xs ys
      → get_elem? xs i ≡ some (tool name input r x)
      → (r' : Option Text) × (x' : Option Bool) × (get_elem? ys i ≡ some (tool name input r' x'))
  tool-Extends ev [] ys i r x g e = cc
  tool-Extends ev (z ∷ xs) [] i r x g e = elim g [ ]
  tool-Extends ev (tool k j r x ∷ xs) (tool k' j' r' x' ∷ ys) zero _ _ g e =
      (r', x', cc (g.0.0, g.0.1))
  tool-Extends ev (tool k j r x ∷ xs) (y ∷ ys) zero _ _ g e = cc (g.0)
  tool-Extends ev (z ∷ xs) (y ∷ ys) zero r x g e = cc
  tool-Extends ev (z ∷ xs) (y ∷ ys) (suc i) r x g e = tool-Extends ev xs ys i r x g.1 e

-- The event starts no tool call with this id.
abbrev pub Spares : Text → AgentEvent → Type 0
Spares id ev = ev.type ≡ EventType.tool_call → truthy ev.tool_id ≢ some id

tools_by_id-add_text :
    (t : Text) (found : Option ChatEntry) (s : ChatState)
    → (add_text t found s).tools_by_id ≡ s.tools_by_id
tools_by_id-add_text t none s = refl
tools_by_id-add_text t (some (assistant before)) s = refl
tools_by_id-add_text t (some _) s = refl

lookup-remember :
    (id : Text) (key : Option Text) (i : ℕ) (m : Assoc ℕ)
    → key ≢ some id
    → lookup id (remember key i m) ≡ lookup id m
lookup-remember id none i m h = refl
lookup-remember id (some k) i m h = ground (arith, lookup-insert k id i m, ===_iff k id)

lookup-apply_by_type :
    (id : Text) (type : EventType) (ev : AgentEvent) (s : ChatState)
    → (type ≡ EventType.tool_call → truthy ev.tool_id ≢ some id)
    → lookup id (apply_by_type type ev s).tools_by_id ≡ lookup id s.tools_by_id
unfolding apply_by_type
lookup-apply_by_type id EventType.text ev s h = elim (Option-cases (truthy ev.text)) [
  | inl e ↦ rw e
  | inr (t, e) ↦ rw (e, tools_by_id-add_text)
]
lookup-apply_by_type id EventType.tool_call ev s h =
    lookup-remember id (truthy ev.tool_id) (length s.entries) s.tools_by_id (h refl)
lookup-apply_by_type id EventType.tool_result ev s h =
    elim (Option-cases (find_tool (truthy ev.tool_id) s.tools_by_id)) [
      | inl e ↦ rw e
      | inr (i, e) ↦ rw (e, tools_by_id-add_result)
    ]
lookup-apply_by_type id _ ev s h = refl

lookup-apply_agent_event :
    (id : Text) (ev : AgentEvent) (s : ChatState)
    → Spares id ev
    → lookup id (apply_agent_event ev s).tools_by_id ≡ lookup id s.tools_by_id
unfolding apply_agent_event
lookup-apply_agent_event id ev s h = lookup-apply_by_type id ev.type ev s h

IsCall-apply_all :
    (id name input : Text) (n : ℕ) (evs : List AgentEvent) (s : ChatState)
    → All (Spares id) evs
    → IsCall id name input n s
    → IsCall id name input n (apply_all evs s)
IsCall-apply_all id name input n [] s h c = c
IsCall-apply_all id name input n (ev ∷ evs) s h c =
    let (r, x, e) =
      tool-Extends id name input n ev s.entries (apply_agent_event ev s).entries n c.result
        c.is_error (apply_agent_event-Extends ev s) c.entry in
    IsCall-apply_all id name input n evs (apply_agent_event ev s) h.1 (record {
      result = r;
      is_error = x;
      entry = e;
      known = lookup-apply_agent_event id ev s h.0 ∙ c.known;
    })

-- The call of a tool, and its result: events with one id.
pub record IsCallOf (id : Text) (call : AgentEvent) : Type 0 where
  pub type : call.type ≡ EventType.tool_call
  pub has_id : truthy call.tool_id ≡ some id

pub record IsResultOf (id : Text) (result : AgentEvent) : Type 0 where
  pub type : result.type ≡ EventType.tool_result
  pub has_id : truthy result.tool_id ≡ some id

abbrev pub call_name : AgentEvent → Text
call_name ev = or_text ev.tool (lit "tool")

abbrev pub call_input : AgentEvent → Text
call_input ev = or_text ev.input (lit "{}")

IsCall-IsCall :
    (id : Text) (call : AgentEvent) (s : ChatState)
    → IsCallOf id call
    → IsCall id (call_name call) (call_input call) (length s.entries) (apply_agent_event call s)
unfolding apply_agent_event
IsCall-IsCall id call s c = record {
  result = none;
  is_error = none;
  entry = rw c.type (get_elem?-length s.entries _);
  known = rw (c.type, c.has_id, lookup-insert, ===_refl);
}

result-IsCall :
    (id name input : Text) (n : ℕ) (result : AgentEvent) (s : ChatState)
    → IsCall id name input n s
    → IsResultOf id result
    → get_elem? (apply_agent_event result s).entries n
      ≡ some (tool name input result.result result.is_error)
unfolding apply_agent_event
result-IsCall id name input n result s c r =
    rw (r.type, r.has_id, c.known, c.entry)
      (get_elem?-set_self s.entries n _ (get_elem?-lt s.entries n c.entry))

apply_all-append :
    (evs : List AgentEvent) (ev : AgentEvent) (s : ChatState)
    → apply_all (evs ++ ev ∷ []) s ≡ apply_agent_event ev (apply_all evs s)
apply_all-append [] ev s = refl
apply_all-append (e ∷ evs) ev s = apply_all-append evs ev (apply_agent_event e s)

-- A tool call, other events of which none is a call under the same id, then the result for that id:
-- the entry that the call added, and which stands where it was added, has the name and the input of
-- the call and the result and the error mark of the result.
pub result_lands :
    (id : Text) (call result : AgentEvent) (between : List AgentEvent) (s : ChatState)
    → IsCallOf id call
    → IsResultOf id result
    → All (Spares id) between
    → get_elem? (apply_all (call ∷ (between ++ result ∷ [])) s).entries (length s.entries)
      ≡ some (tool (call_name call) (call_input call) result.result result.is_error)
result_lands id call result between s c r h =
    let after = apply_agent_event call s in
    rw apply_all-append (
      result-IsCall id (call_name call) (call_input call) (length s.entries) result
        (apply_all between after)
        (IsCall-apply_all id (call_name call) (call_input call) (length s.entries) between after h
          (IsCall-IsCall id call s c))
        r)
