-- ===== src/Integrations.antt =====
-- web/src/components/IntegrationsSection.tsx: the cards of the providers. A request under way is kept in
-- the state; the messages of toasts are texts.
pub mod Store
pub mod Secrets
pub mod Kept
pub mod Cards
mod Tests
use veckomenyn.Base.{
  ℕ, ◌+◌, Bool, true, false, not, ◌&&◌, ◌||◌, Option, none, some, get_or, List, [], ◌∷◌, ◌++◌, Text,
  text, ◌===◌, is_empty, any, if◌then◌else◌, ◌⊎◌, inl, inr,
}
use veckomenyn.Base.Assoc.{Assoc, lookup, insert}
use veckomenyn.Api.Types.{
  FieldType, text_field, password_field, select_field, ProviderField, Provider, ProviderPatch,
  TestProviderResult,
}

abbrev pub is_select : ProviderField → Bool
is_select f = elim f.type [ select_field ↦ true | _ ↦ false ]

-- One round of the loop of `initialConfig`. An absent key and an empty text are both falsy.
abbrev pub with_default : ProviderField → Assoc Text → Assoc Text
with_default f c =
    let value = get_or f.default [] in
    if is_select f && is_empty (get_or (lookup f.key c) []) && not (is_empty value)
    then insert f.key value c
    else c

-- `initialConfig`
unfoldable pub initial_config : List ProviderField → Assoc Text → Assoc Text
initial_config [] c = c
initial_config (f ∷ fs) c = initial_config fs (with_default f c)

-- `ProviderCard`. `saving` is the request that is under way, and `refreshes` counts the calls of `onSaved`.
pub record Card : Type 0 where
  pub fields : List ProviderField
  pub provider : Provider
  pub enabled : Bool
  pub config : Assoc Text
  pub pending : Bool
  pub saving : Option ProviderPatch
  pub refreshes : ℕ
  pub successes : List Text
  pub errors : List Text

-- `useEffect(…, [provider])`
unfoldable pub reset : Provider → Card → Card
reset p s = record s {
  provider = p;
  enabled = p.enabled;
  config = initial_config s.fields p.config;
}

abbrev pub value_at : Text → Assoc Text → Text
value_at k c = get_or (lookup k c) []

abbrev pub is_changed : Card → ProviderField → Bool
is_changed s f = not (value_at f.key s.config === value_at f.key s.provider.config)

abbrev pub is_same_bool : Bool → Bool → Bool
is_same_bool true b = b
is_same_bool false b = not b

-- `dirty`
unfoldable pub is_dirty : Card → Bool
is_dirty s = not (is_same_bool s.enabled s.provider.enabled) || any (is_changed s) s.fields

-- `onChange` of a field
unfoldable pub change : Text → Text → Card → Card
change key val s = record s { config = insert key val s.config }

unfoldable pub set_enabled : Bool → Card → Card
set_enabled b s = record s { enabled = b }

-- `save`, up to its request
unfoldable pub save : Card → Card
save s = if s.pending || not (is_dirty s) then s else record s {
  pending = true;
  saving = some (record { enabled = some s.enabled; config = some s.config });
}

-- `dirty` and `save` of `LLMProviderFields`, which has no switch
abbrev pub is_dirty_llm : Card → Bool
is_dirty_llm s = any (is_changed s) s.fields

unfoldable pub save_llm : Card → Card
save_llm s = if s.pending || not (is_dirty_llm s) then s else record s {
  pending = true;
  saving = some (record { enabled = none; config = some s.config });
}

pub data Answer : Type 0 where
  saved : Answer
  refused : Text → Answer

-- The rest of `save`.
unfoldable pub settle : Answer → Card → Card
settle saved s = record s {
  pending = false;
  saving = none;
  refreshes = s.refreshes + 1;
  successes = s.successes ++ text "toast.changes_saved" ∷ [];
}
settle (refused message) s = record s {
  pending = false;
  saving = none;
  errors = s.errors ++ message ∷ [];
}

-- `LLMProviderCard`
pub record LlmCard : Type 0 where
  pub active_kind : Text
  pub switching : Option Text
  pub testing : Bool
  pub test_result : Option (Bool × Text)
  pub errors : List Text

-- `selectProvider`, up to its request, for `llm_provider`
unfoldable pub select_provider : Text → LlmCard → LlmCard
select_provider new_kind s = elim s.switching [
  | some k ↦ s
  | none ↦
      if new_kind === s.active_kind
      then s
      else record s { switching = some new_kind; test_result = none }
]

-- The rest of `selectProvider`.
unfoldable pub on_selected : Text → Answer → LlmCard → LlmCard
on_selected new_kind saved s = record s { active_kind = new_kind; switching = none }
on_selected new_kind (refused message) s = record s {
  switching = none;
  errors = s.errors ++ message ∷ [];
}

-- The effect that loads the settings.
abbrev pub on_settings : Text → LlmCard → LlmCard
on_settings llm_provider s =
    if is_empty llm_provider then s else record s { active_kind = llm_provider }

-- `runTest`, up to its request
abbrev pub run_test : LlmCard → LlmCard
run_test s = record s { testing = true; test_result = none }

-- The template literal writes `undefined` for an absent property; `translated` is `t`.
unfoldable pub message_of : (Text → Text) → TestProviderResult → Bool × Text
message_of translated r =
    if r.ok
    then (
      true,
      get_or r.model (text "undefined")
          ++ text ": "
          ++ 34 ∷ (get_or r.reply (text "undefined") ++ 34 ∷ []),
    )
    else (false, get_or r.error (translated (text "provider.test_unknown_error")))

-- The rest of `runTest`: `result` is what came back, or the message of what was thrown.
abbrev pub on_tested : (Text → Text) → TestProviderResult ⊎ Text → LlmCard → LlmCard
on_tested translated (inl r) s = record s {
  testing = false;
  test_result = some (message_of translated r);
}
on_tested translated (inr message) s = record s {
  testing = false;
  test_result = some (false, message);
}
