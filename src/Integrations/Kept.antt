-- ===== src/Integrations/Kept.antt =====
-- What a saved card leaves of the configuration that is stored.
use veckomenyn.Base.{
  ◌≡◌, refl, ap, ◌∙◌, Bool, true, false, Option, none, some, [], Text, ◌===◌, ===_iff, is_empty,
  if◌then◌else◌, get_or, arith,
}
use veckomenyn.Base.Assoc.{Assoc, lookup}
use veckomenyn.Api.Types.{Provider, ProviderPatch}
use veckomenyn.Integrations.{Card, initial_config, reset, save, is_dirty}
use veckomenyn.Integrations.Store.{masked, is_secret_field, mask, upsert}
use veckomenyn.Integrations.Secrets.{
  IsDistinct, change_all, last_for, stored_for, or_else, map_option, lookup-upsert, lookup-mask,
  mask-IsDistinct, lookup-initial_config, initial_config-IsDistinct, change_all-IsDistinct,
  lookup-change_all,
}

-- The card of a provider as `Mask` shows it, after edits of its fields.
abbrev pub edited_card : Text → Provider → Assoc Text → Card → Card
edited_card sentinel p es s =
    change_all es (reset (record p { config = mask sentinel s.fields p.config }) s)

-- What the store makes of the request of a card.
abbrev pub stored_config : Text → Option ProviderPatch → Assoc Text → Assoc Text
stored_config sentinel none c = c
stored_config sentinel (some patch) c = upsert sentinel (get_or patch.config []) c

save-config :
    (s : Card)
    → s.pending ≡ false
    → is_dirty s ≡ true
    → (save s).saving ≡ some (record { enabled = some s.enabled; config = some s.config })
unfolding save
save-config s p d = rw d (rw p refl)

edited_card-IsDistinct :
    (sentinel : Text) (p : Provider) (es : Assoc Text) (s : Card)
    → IsDistinct p.config
    → IsDistinct (edited_card sentinel p es s).config
unfolding reset
edited_card-IsDistinct sentinel p es s d =
    change_all-IsDistinct es (reset (record p { config = mask sentinel s.fields p.config }) s) (
      initial_config-IsDistinct s.fields (mask sentinel s.fields p.config)
        (mask-IsDistinct sentinel s.fields p.config d))

masked-stored :
    (sentinel v : Text) (b : Bool)
    → is_empty v ≡ false
    → stored_for sentinel (some (masked sentinel b v)) (some v) ≡ some v
masked-stored sentinel v b e = ground (arith, ===_iff sentinel sentinel, ===_iff v sentinel)

masked-filled :
    (sentinel v : Text) (b : Bool)
    → is_empty sentinel ≡ false
    → is_empty v ≡ false
    → is_empty (masked sentinel b v) ≡ false
masked-filled sentinel v b d e = ground arith

-- What the store has for a key after a card was saved.
lookup-stored_config :
    (sentinel : Text) (p : Provider) (es : Assoc Text) (s : Card) (j : Text)
    → IsDistinct p.config
    → (edited_card sentinel p es s).pending ≡ false
    → is_dirty (edited_card sentinel p es s) ≡ true
    → lookup j (stored_config sentinel (save (edited_card sentinel p es s)).saving p.config)
      ≡ stored_for sentinel
          (or_else
            (last_for j es)
            (lookup j (initial_config s.fields (mask sentinel s.fields p.config))))
          (lookup j p.config)
unfolding reset
lookup-stored_config sentinel p es s j d n e =
    ap (λ o. lookup j (stored_config sentinel o p.config))
      (save-config (edited_card sentinel p es s) n e)
    ∙ lookup-upsert sentinel j (edited_card sentinel p es s).config p.config
        (edited_card-IsDistinct sentinel p es s d)
    ∙ ap (λ o. stored_for sentinel o (lookup j p.config))
        (lookup-change_all es j (reset (record p { config = mask sentinel s.fields p.config }) s))

-- When a card that has something to save and no request under way is saved, a key that was not edited
-- keeps what is stored for it, whether the card was shown the text or, for a secret, the sentinel in
-- its place, and whatever else was edited. The keys of the stored configuration differ, and the stored
-- text and the sentinel are not empty.
pub save-kept :
    (sentinel : Text) (p : Provider) (es : Assoc Text) (s : Card) (j v : Text)
    → is_empty sentinel ≡ false
    → IsDistinct p.config
    → (edited_card sentinel p es s).pending ≡ false
    → is_dirty (edited_card sentinel p es s) ≡ true
    → last_for j es ≡ none
    → lookup j p.config ≡ some v
    → is_empty v ≡ false
    → lookup j (stored_config sentinel (save (edited_card sentinel p es s)).saving p.config)
      ≡ some v
save-kept sentinel p es s j v f d n e l h k =
    let shown : Text = masked sentinel (is_secret_field s.fields j) v in
    let seen : lookup j (initial_config s.fields (mask sentinel s.fields p.config)) ≡ some shown =
      lookup-initial_config s.fields j shown (mask sentinel s.fields p.config)
        (masked-filled sentinel v (is_secret_field s.fields j) f k)
        (lookup-mask sentinel s.fields j p.config
          ∙ ap (map_option (masked sentinel (is_secret_field s.fields j))) h) in
    lookup-stored_config sentinel p es s j d n e
    ∙ rw l (rw seen (rw h (masked-stored sentinel v (is_secret_field s.fields j) k)))

-- When a card that has something to save and no request under way is saved, a key that was edited has
-- the text it was edited to last; the empty text takes the key away, and the sentinel keeps what is
-- stored. The keys of the stored configuration differ.
pub save-edited :
    (sentinel : Text) (p : Provider) (es : Assoc Text) (s : Card) (j v : Text)
    → IsDistinct p.config
    → (edited_card sentinel p es s).pending ≡ false
    → is_dirty (edited_card sentinel p es s) ≡ true
    → last_for j es ≡ some v
    → lookup j (stored_config sentinel (save (edited_card sentinel p es s)).saving p.config)
      ≡ (if v === sentinel then lookup j p.config else if is_empty v then none else some v)
save-edited sentinel p es s j v d n e l = lookup-stored_config sentinel p es s j d n e ∙ rw l refl
