-- ===== src/Settings/Patch.antt =====
-- web/src/components/SettingsModal.tsx: the partial settings, as the edits make them and the server applies
-- them.
use veckomenyn.Base.{
  ◌≡◌, refl, ℕ, Bool, true, false, not, ◌&&◌, Option, none, some, is_some, get_or, List, [], ◌∷◌,
  Text, arith,
}
use veckomenyn.Api.Types.{Language, HouseholdSettings, SettingsPatch}
use veckomenyn.Api.Http.{ℤ}

-- One field that `update` is called for, with its value.
pub data Edit : Type 0 where
  dinners weekday servings : ℕ → Edit
  offset : ℤ → Edit
  language : Language → Edit
  provider notes : Text → Edit

abbrev pub no_patch : SettingsPatch
no_patch = record {
  default_dinners = none;
  default_delivery_weekday = none;
  default_order_offset_days = none;
  default_servings = none;
  language = none;
  llm_provider = none;
  notes_md = none;
}

-- `{ ...prev, [key]: value }`
unfoldable pub edited : Edit → HouseholdSettings → HouseholdSettings
edited (dinners n) s = record s { default_dinners = n }
edited (weekday n) s = record s { default_delivery_weekday = n }
edited (servings n) s = record s { default_servings = n }
edited (offset z) s = record s { default_order_offset_days = z }
edited (language l) s = record s { language = l }
edited (provider p) s = record s { llm_provider = p }
edited (notes t) s = record s { notes_md = t }

-- `{ [key]: value }`
unfoldable pub patch_of : Edit → SettingsPatch
patch_of (dinners n) = record no_patch { default_dinners = some n }
patch_of (weekday n) = record no_patch { default_delivery_weekday = some n }
patch_of (servings n) = record no_patch { default_servings = some n }
patch_of (offset z) = record no_patch { default_order_offset_days = some z }
patch_of (language l) = record no_patch { language = some l }
patch_of (provider p) = record no_patch { llm_provider = some p }
patch_of (notes t) = record no_patch { notes_md = some t }

abbrev over {ℓ} : {A : Type ℓ} → Option A → Option A → Option A
over o none = o
over o (some v) = some v

-- `{ ...pending, ...patch }`
unfoldable pub merged : SettingsPatch → SettingsPatch → SettingsPatch
merged p q = record {
  default_dinners = over p.default_dinners q.default_dinners;
  default_delivery_weekday = over p.default_delivery_weekday q.default_delivery_weekday;
  default_order_offset_days = over p.default_order_offset_days q.default_order_offset_days;
  default_servings = over p.default_servings q.default_servings;
  language = over p.language q.language;
  llm_provider = over p.llm_provider q.llm_provider;
  notes_md = over p.notes_md q.notes_md;
}

-- `Object.keys(toSend).length === 0`
unfoldable pub is_empty_patch : SettingsPatch → Bool
is_empty_patch p =
    not (is_some p.default_dinners)
    && not (is_some p.default_delivery_weekday)
    && not (is_some p.default_order_offset_days)
    && not (is_some p.default_servings)
    && not (is_some p.language)
    && not (is_some p.llm_provider)
    && not (is_some p.notes_md)

-- What the server stores for a patch.
unfoldable pub applied : SettingsPatch → HouseholdSettings → HouseholdSettings
applied p s = record {
  default_dinners = get_or p.default_dinners s.default_dinners;
  default_delivery_weekday = get_or p.default_delivery_weekday s.default_delivery_weekday;
  default_order_offset_days = get_or p.default_order_offset_days s.default_order_offset_days;
  default_servings = get_or p.default_servings s.default_servings;
  language = get_or p.language s.language;
  llm_provider = get_or p.llm_provider s.llm_provider;
  notes_md = get_or p.notes_md s.notes_md;
}

abbrev pub edit_all : List Edit → HouseholdSettings → HouseholdSettings
edit_all [] s = s
edit_all (e ∷ es) s = edit_all es (edited e s)

pub is_empty_patch-no_patch : is_empty_patch no_patch ≡ true
unfolding is_empty_patch
is_empty_patch-no_patch = refl

pub applied-no_patch : (s : HouseholdSettings) → applied no_patch s ≡ s
unfolding applied
applied-no_patch s = refl

-- A field that is edited last wins over what the patch held for it, and the others stay.
pub applied-merged :
    (p : SettingsPatch) (e : Edit) (s : HouseholdSettings)
    → applied (merged p (patch_of e)) s ≡ edited e (applied p s)
unfolding applied merged patch_of edited
applied-merged p (dinners n) s = refl
applied-merged p (weekday n) s = refl
applied-merged p (servings n) s = refl
applied-merged p (offset z) s = refl
applied-merged p (language l) s = refl
applied-merged p (provider t) s = refl
applied-merged p (notes t) s = refl

pub is_empty_patch-merged :
    (p : SettingsPatch) (e : Edit) → is_empty_patch (merged p (patch_of e)) ≡ false
unfolding is_empty_patch merged patch_of
is_empty_patch-merged p (dinners n) = refl
is_empty_patch-merged p (weekday n) = ground arith
is_empty_patch-merged p (servings n) = ground arith
is_empty_patch-merged p (offset z) = ground arith
is_empty_patch-merged p (language l) = ground arith
is_empty_patch-merged p (provider t) = ground arith
is_empty_patch-merged p (notes t) = ground arith

get_or-absent {ℓ} : {A : Type ℓ} (o : Option A) (d : A) → is_some o ≡ false → get_or o d ≡ d
get_or-absent none d e = refl
get_or-absent (some v) d e = cc

pub applied-empty :
    (p : SettingsPatch) (s : HouseholdSettings) → is_empty_patch p ≡ true → applied p s ≡ s
unfolding applied is_empty_patch
applied-empty p s e = λ i. record {
  default_dinners = get_or-absent p.default_dinners s.default_dinners (ground arith) i;
  default_delivery_weekday =
      get_or-absent p.default_delivery_weekday s.default_delivery_weekday (ground arith) i;
  default_order_offset_days =
      get_or-absent p.default_order_offset_days s.default_order_offset_days (ground arith) i;
  default_servings = get_or-absent p.default_servings s.default_servings (ground arith) i;
  language = get_or-absent p.language s.language (ground arith) i;
  llm_provider = get_or-absent p.llm_provider s.llm_provider (ground arith) i;
  notes_md = get_or-absent p.notes_md s.notes_md (ground arith) i;
}
