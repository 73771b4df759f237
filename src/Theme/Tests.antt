-- ===== src/Theme/Tests.antt =====
-- The theme of web/src/lib/theme.ts on concrete pages.
use veckomenyn.Base.{◌≡◌, refl, true, false, none, some, text, ◌===◌, List, [], ◌∷◌}
use veckomenyn.Theme.{
  system, Page, read, set_theme, init_theme, toggle, resolve_theme, on_change, next_theme, apply,
}
use veckomenyn.Theme.Print.{enter, leave, suspended, leave-on_change}
use veckomenyn.Theme.Shown.{
  Event, choose, press, system_turns, run, IsShown, run-init_theme-IsShown,
}

-- Before the start: an unknown stored word, on a dark system.
abbrev fresh : Page
fresh = record {
  stored = some (text "blue");
  prefers_dark = true;
  dark_class = false;
  color_scheme = text "normal";
  notified = 0;
}

abbrev bright : Page
bright = record {
  stored = some (text "light");
  prefers_dark = true;
  dark_class = false;
  color_scheme = text "light";
  notified = 0;
}

bright-IsShown : IsShown bright
unfolding read resolve_theme ◌===◌
bright-IsShown = record { class = refl; colors = refl }

abbrev events : List Event
events = press ∷ system_turns false ∷ choose system ∷ system_turns true ∷ []

run-init_theme-IsShown_example : IsShown (run events (init_theme fresh))
run-init_theme-IsShown_example = run-init_theme-IsShown events fresh

run-events : (run events (init_theme fresh)).dark_class ≡ true
unfolding init_theme set_theme toggle on_change read resolve_theme next_theme apply ◌===◌
run-events = refl

-- The theme of the system, on a light one that turns dark
abbrev plain : Page
plain = record {
  stored = none;
  prefers_dark = false;
  dark_class = false;
  color_scheme = text "light";
  notified = 0;
}

plain-IsShown : IsShown plain
unfolding read resolve_theme
plain-IsShown = record { class = refl; colors = refl }

read-plain : read plain ≡ system
unfolding read
read-plain = refl

leave-on_change_example :
    let printed = on_change true (enter plain) in
    (printed.dark_class ≡ true) × ¬ IsShown (leave (suspended plain) printed)
leave-on_change_example = leave-on_change true plain read-plain plain-IsShown (λ e. cc)
