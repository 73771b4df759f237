-- ===== src/Chat.antt =====
-- web/src/components/ChatDrawer.tsx: the entries of the chat, and `applyAgentEvent`, which adds an
-- event of the agent (web/src/lib/api.ts) to them. An optional field is an `Option`.
pub mod History
pub mod Links
pub mod Replay
pub mod Results
mod Tests
use veckomenyn.Base.{
  ℕ, Bool, Option, none, some, List, [], ◌∷◌, ◌++◌, Text, text as lit, length, get_elem?, set,
  is_empty, if◌then◌else◌,
}
use veckomenyn.Base.Assoc.{Assoc, lookup, insert}

pub data EventType : Type 0 where
  text tool_call_started tool_call tool_result error cancelled done : EventType

pub record AgentEvent : Type 0 where
  pub type : EventType
  pub text : Option Text
  pub tool : Option Text
  pub tool_id : Option Text
  pub input : Option Text
  pub result : Option Text
  pub is_error : Option Bool

pub data ChatEntry : Type 0 where
  user assistant error : Text → ChatEntry
  tool : (name input : Text) (result : Option Text) (is_error : Option Bool) → ChatEntry
  cancelled : ChatEntry

-- `assistantIndex` is `none` for -1.
pub record ChatState : Type 0 where
  pub entries : List ChatEntry
  pub assistant_index : Option ℕ
  pub tools_by_id : Assoc ℕ

-- A missing or empty text is falsy.
abbrev pub truthy : Option Text → Option Text
truthy none = none
truthy (some s) = if is_empty s then none else some s

-- `s || d`
abbrev pub or_text : Option Text → Text → Text
or_text s d = elim (truthy s) [ none ↦ d | some t ↦ t ]

-- `entries[idx]` at an index that may be -1
abbrev pub entry_at : List ChatEntry → Option ℕ → Option ChatEntry
entry_at entries none = none
entry_at entries (some i) = get_elem? entries i

abbrev pub push : ChatEntry → ChatState → ChatState
push e s = record s { entries = s.entries ++ e ∷ [] }

abbrev pub write : ℕ → ChatEntry → ChatState → ChatState
write i e s = record s { entries = set s.entries i e }

abbrev pub index_or_zero : Option ℕ → ℕ
index_or_zero none = 0
index_or_zero (some i) = i

-- The case "text", given the entry at `assistantIndex`.
abbrev pub add_text : Text → Option ChatEntry → ChatState → ChatState
add_text t (some (assistant before)) s =
    write (index_or_zero s.assistant_index) (assistant (before ++ t)) s
add_text t _ s = record (push (assistant t) s) { assistant_index = some (length s.entries) }

-- `if (ev.tool_id) toolsByID.set(...)`
abbrev pub remember : Option Text → ℕ → Assoc ℕ → Assoc ℕ
remember none i m = m
remember (some id) i m = insert id i m

abbrev pub find_tool : Option Text → Assoc ℕ → Option ℕ
find_tool none m = none
find_tool (some id) m = lookup id m

-- The case "tool_result", given the entry at the index of the call.
abbrev pub add_result : AgentEvent → ℕ → Option ChatEntry → ChatState → ChatState
add_result ev i (some (tool name input result is_error)) s =
    write i (tool name input ev.result ev.is_error) s
add_result ev i _ s = s

abbrev pub apply_text : Option Text → ChatState → ChatState
apply_text none s = s
apply_text (some t) s = add_text t (entry_at s.entries s.assistant_index) s

abbrev pub apply_result : AgentEvent → Option ℕ → ChatState → ChatState
apply_result ev none s = s
apply_result ev (some i) s = add_result ev i (get_elem? s.entries i) s

unfoldable pub apply_by_type : EventType → AgentEvent → ChatState → ChatState
apply_by_type text ev s = apply_text (truthy ev.text) s
apply_by_type tool_call_started ev s = s
apply_by_type tool_call ev s = record {
  entries =
      s.entries ++ tool (or_text ev.tool (lit "tool")) (or_text ev.input (lit "{}")) none none ∷ [];
  assistant_index = none;
  tools_by_id = remember (truthy ev.tool_id) (length s.entries) s.tools_by_id;
}
apply_by_type tool_result ev s = apply_result ev (find_tool (truthy ev.tool_id) s.tools_by_id) s
apply_by_type error ev s = push (error (or_text ev.result (lit "unknown error"))) s
apply_by_type cancelled ev s = push cancelled s
apply_by_type done ev s = s

unfoldable pub apply_agent_event : AgentEvent → ChatState → ChatState
unfolding apply_by_type
apply_agent_event ev s = apply_by_type ev.type ev s

abbrev pub apply_all : List AgentEvent → ChatState → ChatState
apply_all [] s = s
apply_all (ev ∷ evs) s = apply_all evs (apply_agent_event ev s)
