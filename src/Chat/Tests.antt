-- ===== src/Chat/Tests.antt =====
-- The chat entries on small inputs.
use veckomenyn.Base.{
  ◌≡◌, refl, none, some, List, [], ◌∷◌, ◌++◌, text as lit, length, get_elem?, ◌===◌,
}
use veckomenyn.Base.Assoc.{lookup, insert}
use veckomenyn.Chat.{
  EventType, AgentEvent, user, assistant, tool, ChatState, apply_agent_event, apply_all,
}
use veckomenyn.Chat.History.{Extends, apply_agent_event-Extends}
use veckomenyn.Chat.Links.{IsLinked}
use veckomenyn.Chat.Replay.{delta, rerun, apply_agent_event_again}
use veckomenyn.Chat.Results.{result_lands, call_name, call_input}

abbrev asked : ChatState
asked = record { entries = user (lit "plan") ∷ []; assistant_index = none; tools_by_id = [] }

abbrev call : AgentEvent
call = record {
  type = EventType.tool_call;
  text = none;
  tool = some (lit "add_dinner");
  tool_id = some (lit "k1");
  input = none;
  result = none;
  is_error = none;
}

abbrev answer : AgentEvent
answer = record {
  type = EventType.tool_result;
  text = none;
  tool = some (lit "add_dinner");
  tool_id = some (lit "k1");
  input = none;
  result = some (lit "ok");
  is_error = none;
}

abbrev events : List AgentEvent
events = delta (lit "Hej") ∷ call ∷ delta (lit "") ∷ delta (lit "Klart") ∷ answer ∷ []

apply_events :
    (apply_all events asked).entries
    ≡ user (lit "plan")
      ∷ assistant (lit "Hej")
      ∷ tool (lit "add_dinner") (lit "{}") (some (lit "ok")) none
      ∷ assistant (lit "Klart")
      ∷ []
unfolding apply_agent_event lookup insert ◌===◌
apply_events = refl

asked-IsLinked : IsLinked asked
unfolding lookup
asked-IsLinked = record { assistant_entry = λ i e. cc; tool_entry = λ id i e. cc }

apply_agent_event-Extends_example :
    Extends answer
      (apply_all events asked).entries
      (apply_agent_event answer (apply_all events asked)).entries
apply_agent_event-Extends_example = apply_agent_event-Extends answer (apply_all events asked)

apply_agent_event_again_example :
    (apply_agent_event
      (delta (lit "Hej"))
      (rerun asked (apply_agent_event (delta (lit "Hej")) asked))).entries
    ≡ (apply_agent_event (delta (lit "Hej")) asked).entries
apply_agent_event_again_example = apply_agent_event_again (delta (lit "Hej")) asked

result_lands_example :
    get_elem?
      (apply_all (call ∷ (delta (lit "Klart") ∷ [] ++ answer ∷ [])) asked).entries
      (length asked.entries)
    ≡ some (tool (call_name call) (call_input call) answer.result answer.is_error)
result_lands_example =
    result_lands (lit "k1") call answer (delta (lit "Klart") ∷ []) asked
      (record { type = refl; has_id = refl }) (record { type = refl; has_id = refl })
      ((λ e. cc), tt)
