-- ===== src/Editable/Tests.antt =====
-- An editor on concrete events.
use veckomenyn.Base.{◌≡◌, refl, false, List, [], ◌∷◌, text, ◌===◌}
use veckomenyn.Editable.{
  Event, Key, mount, click, type_text, press, leave, settled, run, step, handle_key, commit,
}
use veckomenyn.Editable.Commits.{IsSingle, run-mount-IsSingle}

abbrev enter : Key
enter = record { key = text "Enter"; shift_key = false; meta_key = false; ctrl_key = false }

-- A text is committed, the input is left meanwhile, and the call is rejected.
abbrev events : List Event
events = click ∷ type_text (text "Tacos") ∷ press enter ∷ leave ∷ settled false ∷ []

run-mount-IsSingle_example : IsSingle (run false events (mount (text "Soup")))
run-mount-IsSingle_example = run-mount-IsSingle false (text "Soup") events

committed_once : (run false events (mount (text "Soup"))).committed ≡ text "Tacos" ∷ []
unfolding step handle_key commit ◌===◌
committed_once = refl
