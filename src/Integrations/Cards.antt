-- ===== src/Integrations/Cards.antt =====
-- When a card can be saved.
use veckomenyn.Base.{◌≡◌, refl, ◌↔◌, Bool, true, false, List, [], ◌∷◌, ===_iff, any, All, arith}
use veckomenyn.Api.Types.{ProviderField}
use veckomenyn.Integrations.{Card, value_at, is_same_bool, is_dirty, is_changed}

abbrev pub IsKept : Card → ProviderField → Type 0
IsKept s f = value_at f.key s.config ≡ value_at f.key s.provider.config

any-is_changed :
    (s : Card) (fs : List ProviderField) → (any (is_changed s) fs ≡ false) ↔ All (IsKept s) fs
any-is_changed s [] = (λ h. tt, λ h. refl)
any-is_changed s (f ∷ fs) =
    let same = ===_iff (value_at f.key s.config) (value_at f.key s.provider.config) in
    let rest = any-is_changed s fs in
    (λ h. (same.0 (ground arith), rest.0 (ground arith)), λ h. rw (same.1 h.0) (rest.1 h.1))

is_same_bool_iff : (a b : Bool) → (is_same_bool a b ≡ true) ↔ (a ≡ b)
is_same_bool_iff true true = ground arith
is_same_bool_iff true false = ground arith
is_same_bool_iff false true = ground arith
is_same_bool_iff false false = ground arith

-- A card has nothing to save exactly when the switch and every field, an absent key counting as the empty
-- text, are as the provider has them.
pub is_dirty_lem :
    (s : Card) → (is_dirty s ≡ false) ↔ ((s.enabled ≡ s.provider.enabled) × All (IsKept s) s.fields)
unfolding is_dirty
is_dirty_lem s =
    let same = is_same_bool_iff s.enabled s.provider.enabled in
    let rest = any-is_changed s s.fields in
    (λ h. (same.0 (ground arith), rest.0 (ground arith)), λ h. simp (same.1 h.0) (rest.1 h.1))
