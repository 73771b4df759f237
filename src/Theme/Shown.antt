-- ===== src/Theme/Shown.antt =====
-- The page shows the theme that is stored.
use veckomenyn.Base.{◌≡◌, refl, sym, ◌∙◌, Bool, ◌===◌, List, [], ◌∷◌, arith}
use veckomenyn.Theme.{
  Theme, system, light, dark, Page, read, resolve_theme, scheme, set_theme, init_theme, on_change,
  next_theme, toggle,
}

pub record IsShown (p : Page) : Type 0 where
  pub class : p.dark_class ≡ resolve_theme p.prefers_dark (read p)
  pub colors : p.color_scheme ≡ scheme (resolve_theme p.prefers_dark (read p))

-- A theme that is set is the theme that is read, also after the page is loaded again.
pub read-set_theme : (t : Theme) (p : Page) → read (set_theme t p) ≡ t
unfolding set_theme read ◌===◌
read-set_theme system p = refl
read-set_theme light p = refl
read-set_theme dark p = refl

init_theme-IsShown : (p : Page) → IsShown (init_theme p)
unfolding init_theme
init_theme-IsShown p = record { class = refl; colors = refl }

set_theme-IsShown : (t : Theme) (p : Page) → IsShown (set_theme t p)
unfolding set_theme read ◌===◌
set_theme-IsShown system p = record { class = refl; colors = refl }
set_theme-IsShown light p = record { class = refl; colors = refl }
set_theme-IsShown dark p = record { class = refl; colors = refl }

on_change-IsShown :
    (prefers_dark : Bool) (p : Page) → IsShown p → IsShown (on_change prefers_dark p)
unfolding on_change resolve_theme
on_change-IsShown b p h = ground arith

toggle-IsShown : (p : Page) → IsShown (toggle p)
unfolding toggle
toggle-IsShown p = set_theme-IsShown (next_theme (read p)) p

-- What happens to the page while it is open.
pub data Event : Type 0 where
  choose : Theme → Event
  press : Event
  system_turns : Bool → Event

abbrev pub run : List Event → Page → Page
run [] p = p
run (choose t ∷ es) p = run es (set_theme t p)
run (press ∷ es) p = run es (toggle p)
run (system_turns b ∷ es) p = run es (on_change b p)

run-IsShown : (es : List Event) (p : Page) → IsShown p → IsShown (run es p)
run-IsShown [] p h = h
run-IsShown (choose t ∷ es) p h = run-IsShown es (set_theme t p) (set_theme-IsShown t p)
run-IsShown (press ∷ es) p h = run-IsShown es (toggle p) (toggle-IsShown p)
run-IsShown (system_turns b ∷ es) p h = run-IsShown es (on_change b p) (on_change-IsShown b p h)

-- From the start of the page on, whatever is stored then, after any choices, presses of the button and
-- changes of the system's preference, the page has the look of the stored theme.
pub run-init_theme-IsShown : (es : List Event) (p : Page) → IsShown (run es (init_theme p))
run-init_theme-IsShown es p = run-IsShown es (init_theme p) (init_theme-IsShown p)

next_theme_thrice : (t : Theme) → next_theme (next_theme (next_theme t)) ≡ t
unfolding next_theme
next_theme_thrice system = refl
next_theme_thrice light = refl
next_theme_thrice dark = refl

read-toggle : (p : Page) → read (toggle p) ≡ next_theme (read p)
unfolding toggle
read-toggle p = read-set_theme (next_theme (read p)) p

prefers_dark-set_theme : (t : Theme) (p : Page) → (set_theme t p).prefers_dark ≡ p.prefers_dark
unfolding set_theme
prefers_dark-set_theme system p = refl
prefers_dark-set_theme light p = refl
prefers_dark-set_theme dark p = refl

prefers_dark-toggle : (p : Page) → (toggle p).prefers_dark ≡ p.prefers_dark
unfolding toggle
prefers_dark-toggle p = prefers_dark-set_theme (next_theme (read p)) p

read-toggle_thrice : (p : Page) → read (toggle (toggle (toggle p))) ≡ read p
read-toggle_thrice p = simp read-toggle (next_theme_thrice (read p))

-- Three presses of the button bring back the theme and, on a page that shows it, the look.
pub toggle_thrice :
    (p : Page)
    → IsShown p
    → (read (toggle (toggle (toggle p))) ≡ read p)
      × ((toggle (toggle (toggle p))).dark_class ≡ p.dark_class)
      × ((toggle (toggle (toggle p))).color_scheme ≡ p.color_scheme)
unfolding resolve_theme read
toggle_thrice p h =
    let shown = toggle-IsShown (toggle (toggle p)) in
    let same : (toggle (toggle (toggle p))).prefers_dark ≡ p.prefers_dark =
      simp prefers_dark-toggle in
    (
      read-toggle_thrice p,
      shown.class ∙ rw (same, read-toggle_thrice) (sym h.class),
      shown.colors ∙ rw (same, read-toggle_thrice) (sym h.colors),
    )
