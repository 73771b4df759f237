-- ===== src/Theme/Print.antt =====
-- web/src/components/PrintableWeek.tsx: the print view takes the dark look off the page while it is there.
use veckomenyn.Base.{◌≡◌, ◌≢◌, refl, sym, ap, ◌∙◌, Bool, true, false, ◌||◌, Text, text}
use veckomenyn.Theme.{
  Theme, system, light, dark, Page, apply, when_system, read, resolve_theme, scheme, on_change,
}
use veckomenyn.Theme.Shown.{IsShown}

-- What the effect remembers for its clean-up.
pub record Suspended : Type 0 where
  pub had_dark : Bool
  pub scheme : Text

abbrev pub suspended : Page → Suspended
suspended p = record { had_dark = p.dark_class; scheme = p.color_scheme }

-- The effect of the print view, and its clean-up, which takes no class off.
unfoldable pub enter : Page → Page
enter p = record p { dark_class = false; color_scheme = text "light" }

unfoldable pub leave : Suspended → Page → Page
leave kept p = record p { dark_class = kept.had_dark || p.dark_class; color_scheme = kept.scheme }

leave_kept :
    (b : Bool) (p : Page)
    → p.dark_class ≡ b
    → leave (record { had_dark = b; scheme = p.color_scheme }) (enter p)
      ≡ record p { dark_class = b }
unfolding enter leave
leave_kept true p e = refl
leave_kept false p e = refl

-- The print view is light whatever the page was, and when it is left, with no change of the system's
-- preference in between, the page is as it was.
pub leave-enter :
    (p : Page)
    → (leave (suspended p) (enter p) ≡ p)
      × ((enter p).dark_class ≡ false)
      × ((enter p).color_scheme ≡ scheme false)
unfolding enter
leave-enter p = (leave_kept p.dark_class p refl, refl, refl)

when_system-system : (t : Theme) (p : Page) → t ≡ system → when_system t p ≡ apply system p
when_system-system system p e = refl
when_system-system light p e = cc
when_system-system dark p e = cc

-- When the system changes, the page of a theme that follows it does too.
on_change-system :
    (b : Bool) (p : Page)
    → read p ≡ system
    → ((on_change b (enter p)).dark_class ≡ b)
      × ((on_change b (enter p)).prefers_dark ≡ b)
      × (read (on_change b (enter p)) ≡ system)
unfolding on_change read enter apply resolve_theme
on_change-system b p h =
    simp (when_system-system (read p) (record (enter p) { prefers_dark = b }) h) (refl, refl, h)

resolve_theme-system : (d : Bool) (t : Theme) → t ≡ system → resolve_theme d t ≡ d
unfolding resolve_theme
resolve_theme-system d system e = refl
resolve_theme-system d light e = cc
resolve_theme-system d dark e = cc

scheme-injective : (a b : Bool) → scheme a ≡ scheme b → a ≡ b
scheme-injective true true e = refl
scheme-injective true false e = cc
scheme-injective false true e = cc
scheme-injective false false e = refl

-- When the theme follows the system, the page has its look, and the system changes while the print
-- view is there, the print view turns dark or light with it, and after it is left the page does not
-- have the look of its theme.
pub leave-on_change :
    (b : Bool) (p : Page)
    → read p ≡ system
    → IsShown p
    → p.prefers_dark ≢ b
    → let printed = on_change b (enter p) in
      (printed.dark_class ≡ b) × ¬ IsShown (leave (suspended p) printed)
unfolding leave read
leave-on_change b p h s n =
    let (class, prefers, theme) = on_change-system b p h in
    let printed = on_change b (enter p) in
    (
      class,
      λ shown. n (
          scheme-injective p.prefers_dark b (
            ap scheme (sym (resolve_theme-system p.prefers_dark (read p) h))
            ∙ sym s.colors
            ∙ shown.colors
            ∙ ap scheme
                (resolve_theme-system printed.prefers_dark (read printed) theme ∙ prefers))),
    )
