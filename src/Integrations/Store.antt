-- ===== src/Integrations/Store.antt =====
-- internal/providers/providers.go: how the store masks the secrets of a configuration and merges a patch
-- into it. Values that are not strings do not come from the cards.
use veckomenyn.Base.{
  Bool, true, false, not, ◌||◌, ◌&&◌, List, [], ◌∷◌, Text, text, ◌===◌, is_empty, if◌then◌else◌,
}
use veckomenyn.Base.Assoc.{Assoc, insert}
use veckomenyn.Api.Types.{password_field, ProviderField}

abbrev pub is_password : ProviderField → Bool
is_password f = elim f.type [ password_field ↦ true | _ ↦ false ]

-- `isSecretField`
unfoldable pub is_secret_field : List ProviderField → Text → Bool
is_secret_field [] key =
    key === text "api_key"
    || key === text "password"
    || key === text "token"
    || key === text "secret"
is_secret_field (f ∷ fs) key = if f.key === key then is_password f else is_secret_field fs key

-- One value, as `Mask` shows it.
abbrev pub masked : Text → Bool → Text → Text
masked sentinel is_secret v = if is_secret && not (is_empty v) then sentinel else v

-- `Mask`
unfoldable pub mask : Text → List ProviderField → Assoc Text → Assoc Text
mask sentinel fields [] = []
mask sentinel fields ((k, v) ∷ c) =
    (k, masked sentinel (is_secret_field fields k) v) ∷ mask sentinel fields c

abbrev pub remove : Text → Assoc Text → Assoc Text
remove k [] = []
remove k ((j, v) ∷ c) = let rest = remove k c in if j === k then rest else (j, v) ∷ rest

-- One round of the loop of `Upsert`.
unfoldable pub put : Text → Text → Text → Assoc Text → Assoc Text
put sentinel k v config =
    if v === sentinel then config else if is_empty v then remove k config else insert k v config

-- The loop of `Upsert` over the patch. The keys of a map differ, and their order does not matter.
unfoldable pub upsert : Text → Assoc Text → Assoc Text → Assoc Text
upsert sentinel [] config = config
upsert sentinel ((k, v) ∷ patch) config = put sentinel k v (upsert sentinel patch config)
