-- ===== src/Retro.antt =====
-- web/src/components/WeekView.tsx, `WeekRetrospective`: the text of a week's retrospective, which is
-- saved some time after it was typed, and again where that fails.
-- Time is not modelled: an event says that a timer runs out or that a request is answered.
pub mod Kept
pub mod Schedules
mod Tests
use veckomenyn.Base.{
  ℕ, zero, suc, ◌+◌, ◌-◌, Bool, not, ltb, min, Option, none, some, List, [], ◌∷◌, ◌++◌, Text, ◌===◌,
  if◌then◌else◌, get_elem?, get_or, length,
}

abbrev pub retro_debounce_ms : ℕ
retro_debounce_ms = 700

abbrev pub retro_max_attempts : ℕ
retro_max_attempts = 3

abbrev pub retro_backoffs_ms : List ℕ
retro_backoffs_ms = 1000 ∷ 3000 ∷ 9000 ∷ []

-- The error toast of the week: while the save is tried again, and after the last attempt, with the
-- text that its button saves.
pub data Notice : Type 0 where
  no_notice : Notice
  retrying : (message : Text) → Notice
  failed : (message retry : Text) → Notice

pub record Timer : Type 0 where
  pub text : Text
  pub delay : ℕ

-- `debounce` and `retry` are the timers that the refs name, while they run. `leaked` holds the timers
-- of earlier retries, which run on when `retryRef` is set again. `in_flight` are the texts of the
-- requests that are not answered, and `server` is what the server has stored.
pub record Retro : Type 0 where
  pub value : Text
  pub saved : Text
  pub dirty : Bool
  pub debounce : Option Timer
  pub retry : Option Timer
  pub leaked : List Timer
  pub attempts : ℕ
  pub notice : Notice
  pub in_flight : List Text
  pub server : Text

abbrev pub init : Text → Retro
init initial = record {
  value = initial;
  saved = initial;
  dirty = Bool.false;
  debounce = none;
  retry = none;
  leaked = [];
  attempts = 0;
  notice = no_notice;
  in_flight = [];
  server = initial;
}

-- `void save(next)`, up to the answer
abbrev pub begin_save : Text → Retro → Retro
begin_save next s = record s { in_flight = s.in_flight ++ next ∷ [] }

abbrev pub remove_at : ℕ → List Text → List Text
remove_at i [] = []
remove_at zero (x ∷ xs) = xs
remove_at (suc i) (x ∷ xs) = x ∷ remove_at i xs

-- The answer of the server: stored.
unfoldable pub succeed : Text → Retro → Retro
succeed next s = record s {
  saved = next;
  server = next;
  dirty = Bool.false;
  attempts = 0;
  notice = no_notice;
}

abbrev pub leak : Option Timer → List Timer → List Timer
leak none ts = ts
leak (some t) ts = t ∷ ts

-- RETRO_BACKOFFS_MS[Math.min(attempts - 1, RETRO_BACKOFFS_MS.length - 1)]
abbrev pub backoff : ℕ → ℕ
backoff attempts =
    get_or (get_elem? retro_backoffs_ms (min (attempts - 1) (length retro_backoffs_ms - 1))) 0

-- The answer of the server: an error.
unfoldable pub fail : Text → Text → Retro → Retro
fail next message s =
    if ltb (s.attempts + 1) retro_max_attempts
    then record s {
      attempts = s.attempts + 1;
      notice = retrying message;
      retry = some (record { text = next; delay = backoff (s.attempts + 1) });
      leaked = leak s.retry s.leaked;
    }
    else record s { attempts = s.attempts + 1; notice = failed message next }

-- `onChange`
unfoldable pub change : Text → Retro → Retro
change next s = record s {
  value = next;
  dirty = not (next === s.saved);
  retry = none;
  notice = no_notice;
  attempts = 0;
  debounce = some (record { text = next; delay = retro_debounce_ms });
}

-- The week is another one: its text, its server's text. Requests and leaked timers go on.
unfoldable pub switch_week : Text → Retro → Retro
switch_week initial s = record s {
  value = initial;
  saved = initial;
  dirty = Bool.false;
  debounce = none;
  retry = none;
  attempts = 0;
  notice = no_notice;
  server = initial;
}

pub data Answer : Type 0 where
  stored : Answer
  refused : Text → Answer

-- What can happen to the text of one week.
pub data Event : Type 0 where
  typed : Text → Event
  debounce_ends retry_ends leaked_ends retry_pressed : Event
  -- the request at an index is answered
  answered : ℕ → Answer → Event

abbrev pub on_debounce : Option Timer → Retro → Retro
on_debounce none s = s
on_debounce (some t) s = begin_save t.text (record s { debounce = none })

abbrev pub on_retry : Option Timer → Retro → Retro
on_retry none s = s
on_retry (some t) s = begin_save t.text (record s { retry = none })

abbrev pub on_leaked : List Timer → Retro → Retro
on_leaked [] s = s
on_leaked (t ∷ ts) s = begin_save t.text (record s { leaked = ts })

-- The action of the toast after the last attempt.
abbrev pub on_press : Notice → Retro → Retro
on_press (failed message next) s = begin_save next (record s { attempts = 0 })
on_press _ s = s

-- The button of the toast is there for an action; a press runs it and dismisses the toast.
abbrev pub press_button : Notice → Retro → Retro
press_button (failed message next) s = record (on_press (failed message next) s) {
  notice = no_notice;
}
press_button _ s = s

abbrev pub on_answer : Option Text → ℕ → Answer → Retro → Retro
on_answer none i a s = s
on_answer (some next) i stored s = succeed next (record s { in_flight = remove_at i s.in_flight })
on_answer (some next) i (refused message) s =
    fail next message (record s { in_flight = remove_at i s.in_flight })

unfoldable pub step : Event → Retro → Retro
step (typed next) s = change next s
step debounce_ends s = on_debounce s.debounce s
step retry_ends s = on_retry s.retry s
step leaked_ends s = on_leaked s.leaked s
step retry_pressed s = press_button s.notice s
step (answered i a) s = on_answer (get_elem? s.in_flight i) i a s

abbrev pub run : List Event → Retro → Retro
run [] s = s
run (e ∷ es) s = run es (step e s)
