-- ===== src/Retro/Schedules.antt =====
-- Two schedules of a retrospective: a server that refuses, and a text typed while one is being saved.
use veckomenyn.Base.{◌≡◌, refl, false, none, List, [], ◌∷◌, Text}
use veckomenyn.Retro.{
  failed, Event, typed, debounce_ends, retry_ends, answered, stored, refused, init, run, step,
  change, fail, succeed,
}

-- A text that the server refuses three times.
abbrev pub refused_thrice : Text → Text → Text → Text → List Event
refused_thrice next m1 m2 m3 =
    typed next
    ∷ debounce_ends
    ∷ answered 0 (refused m1)
    ∷ retry_ends
    ∷ answered 0 (refused m2)
    ∷ retry_ends
    ∷ answered 0 (refused m3)
    ∷ []

-- A text that the server refuses three times is not tried again: no timer and no request is left, the
-- toast shows the last error, its button saves the text, and the server's text is the one of before.
pub run-refused_thrice :
    (initial next m1 m2 m3 : Text)
    → ((run (refused_thrice next m1 m2 m3) (init initial)).notice ≡ failed m3 next)
      × ((run (refused_thrice next m1 m2 m3) (init initial)).debounce ≡ none)
      × ((run (refused_thrice next m1 m2 m3) (init initial)).retry ≡ none)
      × ((run (refused_thrice next m1 m2 m3) (init initial)).in_flight ≡ [])
      × ((run (refused_thrice next m1 m2 m3) (init initial)).server ≡ initial)
unfolding step change fail
run-refused_thrice initial next m1 m2 m3 = (refl, refl, refl, refl, refl)

-- The second text is typed while the first is being saved, which fails then.
abbrev pub overtaken : Text → Text → Text → List Event
overtaken first second message =
    typed first
    ∷ debounce_ends
    ∷ typed second
    ∷ answered 0 (refused message)
    ∷ debounce_ends
    ∷ answered 0 stored
    ∷ retry_ends
    ∷ answered 0 stored
    ∷ []

-- Typing while a request is there can lose the text: where the request fails after the second text was
-- typed, the retry of the first stores it over the second, and the unsaved change has no mark.
pub run-overtaken :
    (initial first second message : Text)
    → ((run (overtaken first second message) (init initial)).value ≡ second)
      × ((run (overtaken first second message) (init initial)).server ≡ first)
      × ((run (overtaken first second message) (init initial)).dirty ≡ false)
unfolding step change fail succeed
run-overtaken initial first second message = (refl, refl, refl)
