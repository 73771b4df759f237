-- ===== src/Retro/Tests.antt =====
-- The retrospective of a week on concrete texts.
use veckomenyn.Base.{◌≡◌, refl, false, List, [], ◌∷◌, text}
use veckomenyn.Retro.{
  Event, typed, debounce_ends, retry_ends, retry_pressed, answered, stored, refused, init, run,
  step, change, fail, succeed,
}
use veckomenyn.Retro.Kept.{IsKept, run-init-IsKept}
use veckomenyn.Retro.Schedules.{overtaken, run-overtaken}

-- Typed twice before it is saved, refused three times, saved by the button, then typed again.
abbrev events : List Event
events =
    typed (text "Good")
    ∷ typed (text "Good week")
    ∷ debounce_ends
    ∷ answered 0 (refused (text "offline"))
    ∷ retry_ends
    ∷ answered 0 (refused (text "offline"))
    ∷ retry_ends
    ∷ answered 0 (refused (text "offline"))
    ∷ retry_pressed
    ∷ answered 0 stored
    ∷ typed (text "Good week!")
    ∷ []

run-init-IsKept_example : IsKept (run events (init (text "")))
unfolding step change fail succeed
run-init-IsKept_example =
    run-init-IsKept (text "") events (refl, refl, (refl, refl, (refl, refl, tt)))

run-overtaken_example :
    ((run (overtaken (text "b") (text "bc") (text "x")) (init (text "a"))).value ≡ text "bc")
    × ((run (overtaken (text "b") (text "bc") (text "x")) (init (text "a"))).server ≡ text "b")
    × ((run (overtaken (text "b") (text "bc") (text "x")) (init (text "a"))).dirty ≡ false)
run-overtaken_example = run-overtaken (text "a") (text "b") (text "bc") (text "x")
