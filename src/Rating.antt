-- ===== src/Rating.antt =====
-- web/src/components/WeekView.tsx, `RatingControl`: the verdict on a dinner and its notes.
-- `setDinnerRating` and `clearDinnerRating` are requests in flight, any of which can be the next that is
-- stored or refused; `server` is what is stored.
pub mod Agree
mod Tests
use veckomenyn.Base.{
  ℕ, zero, suc, ◌+◌, get_elem?, Option, none, some, List, [], ◌∷◌, ◌++◌, Bool, true, false, ◌&&◌,
  ◌===◌, if◌then◌else◌, Text,
}
use veckomenyn.Api.Types.{DinnerRating, loved, liked, meh, disliked}

pub data Write : Type 0 where
  put_rating : DinnerRating → Text → Write
  delete_rating : Write

pub record Verdict : Type 0 where
  pub rating : Option DinnerRating
  pub notes : Text

-- `timer` holds what the timer of the notes saves, while it runs; `changes` counts the calls of `onChanged`.
pub record Rating : Type 0 where
  pub shown : Verdict
  pub props : Verdict
  pub timer : Option Write
  pub in_flight : List Write
  pub server : Verdict
  pub changes : ℕ
  pub toasts : List Text

-- `persist`, up to the answer
abbrev pub persist : Write → Rating → Rating
persist w s = record s { in_flight = s.in_flight ++ w ∷ [] }

-- `pickRating`
unfoldable pub pick_rating : DinnerRating → Rating → Rating
pick_rating next s =
    persist (put_rating next s.shown.notes)
      (record s { shown = record { rating = some next; notes = s.shown.notes }; timer = none })

abbrev pub timer_for : Option DinnerRating → Text → Option Write → Option Write
timer_for none next timer = timer
timer_for (some rating) next timer = some (put_rating rating next)

-- `changeNotes`
unfoldable pub change_notes : Text → Rating → Rating
change_notes next s = record s {
  shown = record { rating = s.shown.rating; notes = next };
  timer = timer_for s.shown.rating next s.timer;
}

-- `clear`. It leaves the timer as it is.
unfoldable pub clear : Rating → Rating
clear s = persist delete_rating (record s { shown = record { rating = none; notes = [] } })

abbrev pub on_timer : Option Write → Rating → Rating
on_timer none s = s
on_timer (some w) s = persist w (record s { timer = none })

abbrev is_same_rating : Option DinnerRating → Option DinnerRating → Bool
is_same_rating none none = true
is_same_rating (some loved) (some loved) = true
is_same_rating (some liked) (some liked) = true
is_same_rating (some meh) (some meh) = true
is_same_rating (some disliked) (some disliked) = true
is_same_rating a b = false

-- The effect on the props: it runs when one of them has changed.
unfoldable pub refetched : Verdict → Rating → Rating
refetched v s =
    if is_same_rating v.rating s.props.rating && v.notes === s.props.notes
    then s
    else record s { shown = v; props = v }

-- What the server stores for a request.
abbrev pub stored : Write → Verdict → Verdict
stored (put_rating r notes) v = record { rating = some r; notes = notes }
stored delete_rating v = record { rating = none; notes = [] }

abbrev pub remove_at : ℕ → List Write → List Write
remove_at i [] = []
remove_at zero (w ∷ ws) = ws
remove_at (suc i) (w ∷ ws) = w ∷ remove_at i ws

-- The request at an index is stored, and its `then` runs.
abbrev pub deliver : Option Write → ℕ → Rating → Rating
deliver none i s = s
deliver (some w) i s = record s {
  in_flight = remove_at i s.in_flight;
  server = stored w s.server;
  changes = s.changes + 1;
}

-- The request at an index is refused, and its `catch` runs.
abbrev pub refuse : Text → Option Write → ℕ → Rating → Rating
refuse message none i s = s
refuse message (some w) i s = record s {
  in_flight = remove_at i s.in_flight;
  toasts = s.toasts ++ message ∷ [];
}

pub data Event : Type 0 where
  picked : DinnerRating → Event
  typed : Text → Event
  cleared timer_ends reloaded : Event
  -- by the index of the request
  delivered : ℕ → Event
  refused : ℕ → Text → Event

-- Clearing and notes are there only while a rating is shown.
abbrev pub if_rated : Option DinnerRating → Rating → Rating → Rating
if_rated none s next = s
if_rated (some r) s next = next

-- `reloaded`: the dinner comes with what the server has stored.
unfoldable pub step : Event → Rating → Rating
step (picked r) s = pick_rating r s
step (typed next) s = if_rated s.shown.rating s (change_notes next s)
step cleared s = if_rated s.shown.rating s (clear s)
step timer_ends s = on_timer s.timer s
step (delivered i) s = deliver (get_elem? s.in_flight i) i s
step (refused i message) s = refuse message (get_elem? s.in_flight i) i s
step reloaded s = refetched s.server s

abbrev pub run : List Event → Rating → Rating
run [] s = s
run (e ∷ es) s = run es (step e s)
