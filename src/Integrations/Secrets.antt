-- ===== src/Integrations/Secrets.antt =====
-- Configurations looked up, through masking, defaults, edits and the merge of a patch.
use veckomenyn.Base.{
  ◌≡◌, refl, sym, ap, ◌∙◌, Bool, true, false, Option, none, some, List, [], ◌∷◌, Text, ◌===◌,
  ===_iff, is_empty, if◌then◌else◌, get_or, Bool-cases, inl, inr, arith,
}
use veckomenyn.Base.Assoc.{Assoc, lookup, insert, lookup-insert}
use veckomenyn.Api.Types.{ProviderField}
use veckomenyn.Integrations.{Card, with_default, initial_config, change}
use veckomenyn.Integrations.Store.{masked, is_secret_field, mask, remove, put, upsert}

abbrev pub IsDistinct : Assoc Text → Type 0
IsDistinct [] = Unit
IsDistinct ((k, v) ∷ c) = (lookup k c ≡ none) × IsDistinct c

-- The fields of a card edited one after the other.
abbrev pub change_all : Assoc Text → Card → Card
change_all [] s = s
change_all ((k, v) ∷ es) s = change_all es (change k v s)

abbrev pub or_else {ℓ} : {A : Type ℓ} → Option A → Option A → Option A
or_else none o = o
or_else (some a) o = some a

-- What a key was edited to last.
abbrev pub last_for : Text → Assoc Text → Option Text
last_for j [] = none
last_for j ((k, v) ∷ es) = or_else (last_for j es) (if k === j then some v else none)

-- What the store has for a key, of which the patch says `o`.
abbrev pub stored_for : Text → Option Text → Option Text → Option Text
stored_for sentinel none old = old
stored_for sentinel (some v) old =
    if v === sentinel then old else if is_empty v then none else some v

abbrev pub map_option {ℓ κ} : {A : Type ℓ} {B : Type κ} → (A → B) → Option A → Option B
map_option f none = none
map_option f (some a) = some (f a)

or_else_if {ℓ} :
    {A : Type ℓ} (o : Option A) (b : Bool) (v : A) (d : Option A)
    → or_else o (if b then some v else d) ≡ or_else (or_else o (if b then some v else none)) d
or_else_if none true v d = refl
or_else_if none false v d = refl
or_else_if (some a) b v d = refl

lookup-remove :
    (k j : Text) (c : Assoc Text) → lookup j (remove k c) ≡ (if k === j then none else lookup j c)
unfolding lookup
lookup-remove k j [] = ground arith
lookup-remove k j ((i, w) ∷ c) =
    ground (arith, ===_iff k j, ===_iff i k, ===_iff i j, lookup-remove k j c)

lookup-put :
    (s k j v : Text) (c : Assoc Text)
    → lookup j (put s k v c) ≡ (if k === j then stored_for s (some v) (lookup j c) else lookup j c)
unfolding put
lookup-put s k j v c = ground (arith, lookup-remove k j c, lookup-insert k j v c)

pub lookup-upsert :
    (s j : Text) (patch c : Assoc Text)
    → IsDistinct patch
    → lookup j (upsert s patch c) ≡ stored_for s (lookup j patch) (lookup j c)
unfolding upsert lookup
lookup-upsert s j [] c d = refl
lookup-upsert s j ((k, v) ∷ patch) c (e, d) = elim (Bool-cases (k === j)) [
  | inl h ↦
      let absent : lookup j patch ≡ none = ap (λ x. lookup x patch) (sym ((===_iff k j).0 h)) ∙ e in
      let same : lookup j (upsert s patch c) ≡ lookup j c =
        lookup-upsert s j patch c d ∙ ap (λ o. stored_for s o (lookup j c)) absent in
      rw h (lookup-put s k j v (upsert s patch c) ∙ rw h (ap (stored_for s (some v)) same))
  | inr h ↦ rw h (lookup-put s k j v (upsert s patch c) ∙ rw h (lookup-upsert s j patch c d))
]

insert-IsDistinct : (k v : Text) (c : Assoc Text) → IsDistinct c → IsDistinct (insert k v c)
unfolding insert lookup
insert-IsDistinct k v [] d = (refl, tt)
insert-IsDistinct k v ((j, w) ∷ c) (e, d) = elim (Bool-cases (j === k)) [
  | inl h ↦ rw h (e, d)
  | inr h ↦ rw h (
      (lookup-insert k j v c ∙ ground (arith, ===_iff k j, ===_iff j k), insert-IsDistinct k v c d))
]

with_default-IsDistinct :
    (f : ProviderField) (c : Assoc Text) → IsDistinct c → IsDistinct (with_default f c)
with_default-IsDistinct f c d = ground (arith, insert-IsDistinct f.key (get_or f.default []) c d)

pub initial_config-IsDistinct :
    (fs : List ProviderField) (c : Assoc Text) → IsDistinct c → IsDistinct (initial_config fs c)
unfolding initial_config
initial_config-IsDistinct [] c d = d
initial_config-IsDistinct (f ∷ fs) c d =
    initial_config-IsDistinct fs (with_default f c) (with_default-IsDistinct f c d)

pub lookup-mask :
    (s : Text) (fs : List ProviderField) (j : Text) (c : Assoc Text)
    → lookup j (mask s fs c) ≡ map_option (masked s (is_secret_field fs j)) (lookup j c)
unfolding mask lookup
lookup-mask s fs j [] = refl
lookup-mask s fs j ((k, v) ∷ c) = elim (Bool-cases (k === j)) [
  | inl h ↦ rw h (ap (λ x. some (masked s (is_secret_field fs x) v)) ((===_iff k j).0 h))
  | inr h ↦ rw h (lookup-mask s fs j c)
]

pub mask-IsDistinct :
    (s : Text) (fs : List ProviderField) (c : Assoc Text) → IsDistinct c → IsDistinct (mask s fs c)
unfolding mask
mask-IsDistinct s fs [] d = tt
mask-IsDistinct s fs ((k, v) ∷ c) (e, d) = (
  lookup-mask s fs k c ∙ ap (map_option (masked s (is_secret_field fs k))) e,
  mask-IsDistinct s fs c d,
)

lookup-with_default :
    (f : ProviderField) (j w : Text) (c : Assoc Text)
    → is_empty w ≡ false
    → lookup j c ≡ some w
    → lookup j (with_default f c) ≡ some w
lookup-with_default f j w c e h = elim (Bool-cases (f.key === j)) [
  | inl k ↦
      let found : lookup f.key c ≡ some w = ap (λ x. lookup x c) ((===_iff f.key j).0 k) ∙ h in
      rw found (rw e (ground (arith, h)))
  | inr k ↦ ground (arith, k, h, lookup-insert f.key j (get_or f.default []) c)
]

-- A default is only filled in where there is no text.
pub lookup-initial_config :
    (fs : List ProviderField) (j w : Text) (c : Assoc Text)
    → is_empty w ≡ false
    → lookup j c ≡ some w
    → lookup j (initial_config fs c) ≡ some w
unfolding initial_config
lookup-initial_config [] j w c e h = h
lookup-initial_config (f ∷ fs) j w c e h =
    lookup-initial_config fs j w (with_default f c) e (lookup-with_default f j w c e h)

pub change_all-IsDistinct :
    (es : Assoc Text) (s : Card) → IsDistinct s.config → IsDistinct (change_all es s).config
unfolding change
change_all-IsDistinct [] s d = d
change_all-IsDistinct ((k, v) ∷ es) s d =
    change_all-IsDistinct es (change k v s) (insert-IsDistinct k v s.config d)

pub lookup-change_all :
    (es : Assoc Text) (j : Text) (s : Card)
    → lookup j (change_all es s).config ≡ or_else (last_for j es) (lookup j s.config)
unfolding change
lookup-change_all [] j s = refl
lookup-change_all ((k, v) ∷ es) j s =
    lookup-change_all es j (change k v s)
    ∙ ap (or_else (last_for j es)) (lookup-insert k j v s.config)
    ∙ or_else_if (last_for j es) (k === j) v (lookup j s.config)
