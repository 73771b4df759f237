-- ===== src/Preferences.antt =====
-- web/src/components/PreferencesModal.tsx: the preferences by category. Their times are not used and left out.
-- `server` is what is stored; `lower` is `toLowerCase`. The buttons wait for `pending`, so one request
-- is under way at most; `operation` is its rest, with the values that the closure holds.
pub mod Stored
mod Tests
use veckomenyn.Base.{
  Bool, true, false, not, ◌&&◌, Option, none, some, is_some, get_or, List, [], ◌∷◌, ◌++◌, Text,
  text, ◌===◌, is_space, is_empty, trim, if◌then◌else◌,
}
use veckomenyn.Base.Assoc.{Assoc, lookup, insert}

pub data Operation : Type 0 where
  saving : Text → Text → Operation
  creating : Text → Option Text → Operation
  removing : Text → Operation

pub record Preferences : Type 0 where
  pub prefs : Option (Assoc Text)
  pub selected : Option Text
  pub draft : Text
  pub pending : Bool
  pub new_category : Text
  pub operation : Option Operation
  pub server : Assoc Text
  pub toasts : List Text

-- The effect on `selected` and `prefs`. No category is the empty text.
abbrev draft_for : Option Text → Option (Assoc Text) → Text → Text
draft_for (some c) (some rows) draft = get_or (lookup c rows) []
draft_for selected prefs draft = draft

abbrev pub sync : Preferences → Preferences
sync s = record s { draft = draft_for s.selected s.prefs s.draft }

-- `if (!selected && rows.length > 0)`, on the value that the closure of `refresh` holds
abbrev pub select_first : Option Text → Assoc Text → Preferences → Preferences
select_first none ((c, body) ∷ rows) s = record s { selected = some c; draft = body }
select_first selected rows s = s

-- `refresh`, when the rows come
unfoldable pub on_rows : Option Text → Assoc Text → Preferences → Preferences
on_rows selected rows s = sync (select_first selected rows (record s { prefs = some rows }))

-- `setSelected` of a row; the same value changes nothing.
unfoldable pub select : Text → Preferences → Preferences
select c s = if get_or s.selected [] === c then s else sync (record s { selected = some c })

abbrev pub type_draft : Text → Preferences → Preferences
type_draft draft s = record s { draft = draft }

abbrev begin : Operation → Preferences → Preferences
begin o s = record s { pending = true; operation = some o }

-- `save`, up to its request
unfoldable pub save : Preferences → Preferences
save s = elim s.selected [ none ↦ s | some c ↦ begin (saving c s.draft) s ]

-- `replace(/\s+/g, "_")`; `in_run` is behind a white space.
unfoldable pub underscored : Bool → Text → Text
underscored in_run [] = []
underscored in_run (c ∷ s) =
    if is_space c
    then (if in_run then underscored true s else 95 ∷ underscored true s)
    else c ∷ underscored false s

abbrev pub category_of : (Text → Text) → Text → Text
category_of lower s = underscored false (lower (trim s))

-- `createNew`, up to its request
unfoldable pub create_new : (Text → Text) → Preferences → Preferences
create_new lower s =
    let cat = category_of lower s.new_category in
    if is_empty cat then s else begin (creating cat s.selected) s

-- `remove`, up to its request; `confirmed` is the answer of `confirm`.
unfoldable pub remove : Bool → Preferences → Preferences
remove confirmed s = elim s.selected [
  | none ↦ s
  | some c ↦ if confirmed then begin (removing c) s else s
]

abbrev pub without : Text → Assoc Text → Assoc Text
without k [] = []
without k ((j, v) ∷ rows) = let rest = without k rows in if j === k then rest else (j, v) ∷ rest

-- `cur.map((p) => (p.category === next.category ? next : p))`
abbrev pub replaced : Text → Text → Assoc Text → Assoc Text
replaced k v [] = []
replaced k v ((j, w) ∷ rows) = let rest = replaced k v rows in (j, if j === k then v else w) ∷ rest

abbrev pub replaced_if : Text → Text → Option (Assoc Text) → Option (Assoc Text)
replaced_if k v none = none
replaced_if k v (some rows) = some (replaced k v rows)

-- What the server stores.
abbrev pub stored : Operation → Assoc Text → Assoc Text
stored (saving c body) rows = insert c body rows
stored (creating c selected) rows = insert c [] rows
stored (removing c) rows = without c rows

-- The request succeeds, and the list is loaded where the code does that.
abbrev succeed : Operation → Preferences → Preferences
succeed (saving c body) s = sync (record s {
  prefs = replaced_if c body s.prefs;
  toasts = s.toasts ++ text "toast.changes_saved" ∷ [];
})
succeed (creating c selected) s =
    sync (record (on_rows selected s.server (record s { new_category = [] })) {
      selected = some c;
      draft = [];
    })
succeed (removing c) s = on_rows (some c) s.server (record s { selected = none })

unfoldable pub on_success : Operation → Preferences → Preferences
unfolding on_rows
on_success o s = record (succeed o (record s { server = stored o s.server })) {
  pending = false;
  operation = none;
}

-- The request is refused.
abbrev pub on_refusal : Text → Preferences → Preferences
on_refusal message s = record s {
  pending = false;
  operation = none;
  toasts = s.toasts ++ message ∷ [];
}
