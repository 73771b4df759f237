-- ===== src/Editable.antt =====
-- web/src/components/Editable.tsx: `EditableText`, a text that is edited in place, and the choice of a
-- day in `EditableDate`. `onCommit` is an effect; that it resolves or rejects is an event.
pub mod Commits
mod Tests
use veckomenyn.Base.{
  ℕ, ◌+◌, ◌-◌, ◌==◌, ltb, Bool, true, false, not, ◌&&◌, ◌||◌, Option, none, some, List, [], ◌∷◌,
  ◌++◌, Text, text, ◌===◌, if◌then◌else◌,
}

-- `committed` are the texts that `onCommit` was called with, and `awaited` counts the calls that are not
-- settled.
pub record Editor : Type 0 where
  pub value : Text
  pub draft : Text
  pub editing : Bool
  pub saving : Bool
  pub awaited : ℕ
  pub committed : List Text

abbrev pub mount : Text → Editor
mount value = record {
  value = value;
  draft = value;
  editing = false;
  saving = false;
  awaited = 0;
  committed = [];
}

-- `commit`, up to the `await`
unfoldable pub commit : Editor → Editor
commit s = if s.draft === s.value then record s { editing = false } else record s {
  saving = true;
  awaited = s.awaited + 1;
  committed = s.committed ++ s.draft ∷ [];
}

-- The rest of `commit`: the call resolved, or it was rejected.
abbrev pub settle : Bool → Editor → Editor
settle true s = record s { editing = false; saving = false; awaited = s.awaited - 1 }
settle false s = record s { saving = false; awaited = s.awaited - 1 }

pub record Key : Type 0 where
  pub key : Text
  pub shift_key : Bool
  pub meta_key : Bool
  pub ctrl_key : Bool

abbrev pub on_escape : Key → Editor → Editor
on_escape k s = if k.key === text "Escape" then record s { draft = s.value; editing = false } else s

abbrev pub is_commit_key : (multiline : Bool) → Key → Bool
is_commit_key multiline k =
    k.key === text "Enter" && (if multiline then k.meta_key || k.ctrl_key else not k.shift_key)

-- `handleKey`. `commit` reads the draft of the last rendering, so a key is one of the three cases.
unfoldable pub handle_key : (multiline : Bool) → Key → Editor → Editor
unfolding commit
handle_key multiline k s = if is_commit_key multiline k then commit s else on_escape k s

-- The input takes keys and text while it is shown and is not disabled.
abbrev pub is_enabled : Editor → Bool
is_enabled s = s.editing && not s.saving

-- What happens to an editor: the user clicks on the text, types, presses a key or leaves the input, a
-- call is settled, or the value changes from outside.
pub data Event : Type 0 where
  click : Event
  type_text : Text → Event
  press : Key → Event
  leave : Event
  settled : Bool → Event
  new_value : Text → Event

unfoldable pub step : (multiline : Bool) → Event → Editor → Editor
unfolding handle_key commit
step multiline click s = record s { editing = true }
step multiline (type_text t) s = if is_enabled s then record s { draft = t } else s
step multiline (press k) s = if is_enabled s then handle_key multiline k s else s
step multiline leave s = if is_enabled s then commit s else s
step multiline (settled ok) s = if s.awaited == 0 then s else settle ok s
step multiline (new_value v) s = if v === s.value then s else record s { value = v; draft = v }

abbrev pub run : (multiline : Bool) → List Event → Editor → Editor
run multiline [] s = s
run multiline (e ∷ es) s = run multiline es (step multiline e s)

-- `select` of `EditableDate`, up to the `await`: the day that `onCommit` is called with, if it is called.
unfoldable pub select : (nullable : Bool) → (value iso : Option Text) → Option (Option Text)
select nullable none none = none
select nullable (some value) none = if nullable then some none else none
select nullable none (some iso) = some (some iso)
select nullable (some value) (some iso) = if iso === value then none else some (some iso)
