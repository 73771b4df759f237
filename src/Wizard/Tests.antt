-- ===== src/Wizard/Tests.antt =====
-- A walk through the setup.
use veckomenyn.Base.{◌≤◌, ◌≡◌, refl, inl, true, none, some, List, [], ◌∷◌, text, trim}
use veckomenyn.Wizard.{
  init, next, back, save_key, on_saved, is_seed, Event, next_pressed, save_pressed, seed_pressed,
  finish_pressed, typed, saved, seeded, press, run,
}
use veckomenyn.Wizard.Walk.{stored, run-completed}

abbrev walk : List Event
walk =
    next_pressed
    ∷ typed (text " k ")
    ∷ save_pressed
    ∷ saved (some (text "no"))
    ∷ finish_pressed
    ∷ save_pressed
    ∷ saved none
    ∷ seed_pressed
    ∷ seeded (inl 9)
    ∷ finish_pressed
    ∷ []

run-walk : ((run walk init).completed ≡ 1) × (stored walk init ≡ 1)
unfolding press next back save_key on_saved trim
run-walk = (refl, refl)

run-completed_example :
    (1 ≤ (run walk init).completed → 1 ≤ stored walk init)
    × (is_seed (run walk init).step ≡ true → 1 ≤ stored walk init)
run-completed_example = run-completed walk
