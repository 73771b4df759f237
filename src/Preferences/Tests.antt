-- ===== src/Preferences/Tests.antt =====
-- Preferences of a household, and the theorem at a concrete input.
use veckomenyn.Base.{◌≡◌, refl, false, none, some, [], ◌∷◌, Text, text, trim}
use veckomenyn.Base.Assoc.{Assoc}
use veckomenyn.Preferences.{Preferences, underscored, category_of}

abbrev keep : Text → Text
keep s = s

abbrev rows : Assoc Text
rows = (text "fish", text "often") ∷ (text "no_nuts", text "never") ∷ []

abbrev modal : Preferences
modal = record {
  prefs = some rows;
  selected = some (text "fish");
  draft = text "often";
  pending = false;
  new_category = text " no  nuts ";
  operation = none;
  server = rows;
  toasts = [];
}

category_of_spaces : category_of keep modal.new_category ≡ text "no_nuts"
unfolding underscored trim
category_of_spaces = refl
