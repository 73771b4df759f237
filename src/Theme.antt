-- ===== src/Theme.antt =====
-- web/src/lib/theme.ts: the stored choice and the look of the page; the theme button of
-- web/src/App.tsx. The window is always there: `typeof window` is tested for a server only.
pub mod Shown
pub mod Print
mod Tests
use veckomenyn.Base.{
  ℕ, ◌+◌, Bool, true, false, not, ◌||◌, Option, none, some, Text, text, ◌===◌, if◌then◌else◌, List,
  [], ◌∷◌,
}

pub data Theme : Type 0 where
  system light dark : Theme

abbrev pub name_of : Theme → Text
name_of system = text "system"
name_of light = text "light"
name_of dark = text "dark"

-- `stored` is the item "wf:theme" of the local storage; `prefers_dark` the answer of the media query
-- "(prefers-color-scheme: dark)"; `dark_class` and `color_scheme` are set on the root element;
-- `notified` counts the rounds of calls of the listeners.
pub record Page : Type 0 where
  pub stored : Option Text
  pub prefers_dark : Bool
  pub dark_class : Bool
  pub color_scheme : Text
  pub notified : ℕ

abbrev pub theme_of : Text → Theme
theme_of v = if v === text "light" then light else if v === text "dark" then dark else system

unfoldable pub read : Page → Theme
read p = elim p.stored [ none ↦ system | some v ↦ theme_of v ]

-- `true` for "dark", `false` for "light"
unfoldable pub resolve_theme : Bool → Theme → Bool
resolve_theme prefers_dark system = prefers_dark
resolve_theme prefers_dark light = false
resolve_theme prefers_dark dark = true

abbrev pub scheme : Bool → Text
scheme true = text "dark"
scheme false = text "light"

unfoldable pub apply : Theme → Page → Page
apply t p = record p {
  dark_class = resolve_theme p.prefers_dark t;
  color_scheme = scheme (resolve_theme p.prefers_dark t);
}

abbrev pub store : Theme → Page → Page
store system p = record p { stored = none }
store t p = record p { stored = some (name_of t) }

abbrev pub notify : Page → Page
notify p = record p { notified = p.notified + 1 }

unfoldable pub set_theme : Theme → Page → Page
unfolding apply
set_theme t p = notify (apply t (store t p))

unfoldable pub init_theme : Page → Page
unfolding apply read
init_theme p = apply (read p) p

abbrev pub when_system : Theme → Page → Page
when_system system p = apply system p
when_system t p = p

-- The listener that `initTheme` adds: the system turns dark or light.
unfoldable pub on_change : Bool → Page → Page
unfolding apply read
on_change prefers_dark p =
    let q = record p { prefers_dark = prefers_dark } in notify (when_system (read q) q)

-- ThemeToggleButton
unfoldable pub next_theme : Theme → Theme
next_theme system = light
next_theme light = dark
next_theme dark = system

unfoldable pub toggle : Page → Page
unfolding set_theme read next_theme
toggle p = set_theme (next_theme (read p)) p
