-- ===== src/Toast.antt =====
-- web/src/lib/toast.ts: the queue of notifications. A closure (`onClick`) is named by a number.
-- The listeners run on each `emit`; the store counts the calls.
pub mod Queue
pub mod Ids
pub mod Shown
mod Tests
use veckomenyn.Base.{
  ℕ, zero, suc, ◌+◌, ◌-◌, Bool, true, false, not, Option, none, some, List, [], ◌∷◌, ◌++◌, Text,
  text, ◌===◌, show, length, set, drop, keep_if, get_or, leb, ltb, ◌==◌, if◌then◌else◌,
}

pub data ToastVariant : Type 0 where
  success error info : ToastVariant

pub record ToastAction : Type 0 where
  pub label : Text
  pub on_click : ℕ

pub record Toast : Type 0 where
  pub id : Text
  pub variant : ToastVariant
  pub message : Text
  pub action : Option ToastAction
  pub duration : ℕ

pub record ToastOptions : Type 0 where
  pub action : Option ToastAction
  pub duration : Option ℕ
  pub id : Option Text

pub record ToastStore : Type 0 where
  pub toasts : List Toast
  pub next_id : ℕ
  pub emits : ℕ

abbrev pub max_visible : ℕ
max_visible = 3

abbrev pub default_duration : ToastVariant → ℕ
default_duration success = 3000
default_duration info = 3000
default_duration error = 0

abbrev pub init : ToastStore
init = record { toasts = []; next_id = 1; emits = 0 }

abbrev pub is_error : Toast → Bool
is_error t = elim t.variant [ error ↦ true | _ ↦ false ]

-- The `for` loop of `capQueue`: a non-error is spliced out while there is one to drop.
unfoldable pub drop_non_errors : ℕ → List Toast → List Toast
drop_non_errors zero result = result
drop_non_errors (suc to_drop) [] = []
drop_non_errors (suc to_drop) (t ∷ result) = elim (is_error t) [
  | true ↦ t ∷ drop_non_errors (suc to_drop) result
  | false ↦ drop_non_errors to_drop result
]

-- `result.slice(-MAX_VISIBLE)`, where the length is over the cap
abbrev pub last_visible : List Toast → List Toast
last_visible result =
    if ltb max_visible (length result) then drop (length result - max_visible) result else result

unfoldable pub cap_queue : List Toast → List Toast
cap_queue next =
    if leb (length next) max_visible
    then next
    else last_visible (drop_non_errors (length next - max_visible) next)

-- `toasts.findIndex((t) => t.id === id)`
unfoldable pub find_index : Text → List Toast → Option ℕ
find_index id [] = none
find_index id (t ∷ toasts) = elim (t.id === id) [
  | true ↦ some 0
  | false ↦ elim (find_index id toasts) [ none ↦ none | some i ↦ some (suc i) ]
]

abbrev pub place : Option ℕ → Toast → List Toast → List Toast
place none item toasts = cap_queue (toasts ++ item ∷ [])
place (some existing) item toasts = set toasts existing item

abbrev pub id_of : ToastOptions → ToastStore → Text
id_of opts s = get_or opts.id (text "t" ++ show s.next_id)

abbrev pub item_of : ToastVariant → Text → ToastOptions → ToastStore → Toast
item_of variant message opts s = record {
  id = id_of opts s;
  variant = variant;
  message = message;
  action = opts.action;
  duration = get_or opts.duration (default_duration variant);
}

-- `nextID++` runs only where no id is given.
abbrev pub bump : Option Text → ℕ → ℕ
bump none n = n + 1
bump (some _) n = n

unfoldable pub add : ToastVariant → Text → ToastOptions → ToastStore → Text × ToastStore
add variant message opts s = (
  id_of opts s,
  record {
    toasts = place (find_index (id_of opts s) s.toasts) (item_of variant message opts s) s.toasts;
    next_id = bump opts.id s.next_id;
    emits = s.emits + 1;
  },
)

abbrev pub without : Text → List Toast → List Toast
without id toasts = keep_if (λ (t : Toast). not (t.id === id)) toasts

unfoldable pub dismiss : Text → ToastStore → ToastStore
dismiss id s =
    if length (without id s.toasts) == length s.toasts
    then s
    else record s { toasts = without id s.toasts; emits = s.emits + 1 }

unfoldable pub clear : ToastStore → ToastStore
clear s = if length s.toasts == 0 then s else record s { toasts = []; emits = s.emits + 1 }
