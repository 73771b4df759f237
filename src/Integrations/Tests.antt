-- ===== src/Integrations/Tests.antt =====
-- A card with a secret and a default, and the theorems at concrete inputs.
use veckomenyn.Base.{
  ◌≡◌, refl, true, false, none, some, List, [], ◌∷◌, Text, text, ◌===◌, if◌then◌else◌, is_empty,
}
use veckomenyn.Base.Assoc.{Assoc, lookup, insert}
use veckomenyn.Api.Types.{
  FieldType, text_field, password_field, select_field, ProviderField, Provider,
}
use veckomenyn.Integrations.{Card, initial_config, reset, change, save, is_dirty}
use veckomenyn.Integrations.Store.{is_secret_field, mask}
use veckomenyn.Integrations.Kept.{edited_card, stored_config, save-kept, save-edited}

abbrev field : Text → FieldType → ProviderField
field key type = record {
  key = key;
  label = key;
  type = type;
  options = none;
  default = none;
  placeholder = none;
  required = none;
  hint = none;
}

abbrev fields : List ProviderField
fields =
    field (text "api_key") password_field
    ∷ record (field (text "model") select_field) { default = some (text "small") }
    ∷ field (text "base") text_field
    ∷ []

abbrev sentinel : Text
sentinel = text "redacted:1"

abbrev stored : Provider
stored = record {
  kind = text "openai";
  enabled = true;
  config = (text "api_key", text "sk-1") ∷ (text "base", text "host") ∷ [];
  updated_at = none;
}

abbrev blank : Card
blank = record {
  fields = fields;
  provider = stored;
  enabled = false;
  config = [];
  pending = false;
  saving = none;
  refreshes = 0;
  successes = [];
  errors = [];
}

abbrev edits : Assoc Text
edits = (text "base", text "x") ∷ (text "base", []) ∷ []

-- The card shows the sentinel in place of the secret, and the default of the model.
initial_config-mask :
    initial_config fields (mask sentinel fields stored.config)
    ≡ (text "api_key", sentinel) ∷ (text "base", text "host") ∷ (text "model", text "small") ∷ []
unfolding initial_config mask is_secret_field ◌===◌ lookup insert
initial_config-mask = refl

save-kept_example :
    lookup
      (text "api_key")
      (stored_config sentinel (save (edited_card sentinel stored edits blank)).saving stored.config)
    ≡ some (text "sk-1")
unfolding reset change save is_dirty initial_config mask is_secret_field ◌===◌ lookup insert
save-kept_example =
    save-kept sentinel stored edits blank (text "api_key") (text "sk-1") refl (refl, (refl, tt))
      refl refl refl refl refl

save-edited_example :
    lookup
      (text "base")
      (stored_config sentinel (save (edited_card sentinel stored edits blank)).saving stored.config)
    ≡ (if [] === sentinel
        then lookup (text "base") stored.config
        else if is_empty []
        then none
        else some [])
unfolding reset change save is_dirty initial_config mask is_secret_field ◌===◌ lookup insert
save-edited_example =
    save-edited sentinel stored edits blank (text "base") [] (refl, (refl, tt)) refl refl refl
