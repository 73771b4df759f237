-- ===== src/Rating/Tests.antt =====
-- Runs of the rating, and the theorems at concrete inputs.
use veckomenyn.Base.{◌≡◌, refl, none, some, List, [], ◌∷◌, text}
use veckomenyn.Api.Types.{loved, liked}
use veckomenyn.Rating.{
  Verdict, Rating, put_rating, picked, typed, cleared, timer_ends, delivered, reloaded, Event, step,
  pick_rating, change_notes, clear, refetched, run,
}
use veckomenyn.Rating.Agree.{run-stored, clear-on_timer}

abbrev unrated : Verdict
unrated = record { rating = none; notes = [] }

abbrev rated : Verdict
rated = record { rating = some liked; notes = [] }

abbrev fresh : Rating
fresh = record {
  shown = unrated;
  props = unrated;
  timer = none;
  in_flight = [];
  server = unrated;
  changes = 0;
  toasts = [];
}

abbrev shows_liked : Rating
shows_liked = record {
  shown = rated;
  props = rated;
  timer = none;
  in_flight = [];
  server = rated;
  changes = 0;
  toasts = [];
}

-- Two picks, notes, and everything reaches the server; then the rating is cleared.
abbrev evening : List Event
evening =
    picked loved
    ∷ typed (text "go")
    ∷ delivered 0
    ∷ picked liked
    ∷ typed (text "good")
    ∷ timer_ends
    ∷ delivered 0
    ∷ delivered 0
    ∷ delivered 0
    ∷ reloaded
    ∷ cleared
    ∷ delivered 0
    ∷ []

-- Notes typed and a second rating picked before the timer ends: the pick saves the notes too.
run-picked : run (picked loved ∷ typed (text "go") ∷ picked liked ∷ []) fresh ≡ record fresh {
  shown = record { rating = some liked; notes = text "go" };
  in_flight = put_rating loved [] ∷ put_rating liked (text "go") ∷ [];
}
unfolding step pick_rating change_notes
run-picked = refl

run-stored_example : (run evening fresh).server ≡ (run evening fresh).shown
unfolding step pick_rating change_notes clear refetched
run-stored_example =
    run-stored evening fresh refl refl refl
      (refl, (refl, (refl, (refl, (refl, refl, (refl, (refl, tt))))))) refl refl

clear-on_timer_example :
    let after =
      run (typed (text "ok") ∷ cleared ∷ timer_ends ∷ delivered 0 ∷ delivered 0 ∷ []) shows_liked in
    (after.shown.rating ≡ none) × (after.server.rating ≡ some liked) × (after.in_flight ≡ [])
clear-on_timer_example = clear-on_timer liked (text "ok") shows_liked refl refl
