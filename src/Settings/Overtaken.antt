-- ===== src/Settings/Overtaken.antt =====
-- The settings that are loaded on opening, and an edit that overtakes them.
use veckomenyn.Base.{◌≡◌, refl, true, false, some, List, [], ◌∷◌}
use veckomenyn.Settings.{
  Settings, flush, update, set_shown, Event, edit, timer_ends, stored, answered, toggled, step, run,
}
use veckomenyn.Settings.Patch.{
  Edit, edited, applied-merged, applied-empty, is_empty_patch, is_empty_patch-merged,
  is_empty_patch-no_patch,
}

-- The modal is opened, the server answers the load, and an edit is saved and its answer shown before
-- that of the load arrives.
abbrev pub load_late : Edit → List Event
load_late e =
    toggled true ∷ stored 0 ∷ edit e ∷ timer_ends ∷ stored 0 ∷ answered 1 ∷ answered 0 ∷ []

-- Nothing is pending and no request or answer under way when the modal is opened. The server answers
-- the load, an edit is stored, and the answer of the load arrives after that of the edit. Then the
-- server has the edit, while the settings from before the edit are shown, as loaded, and nothing is
-- under way that would show the edit.
pub run-load_late :
    (e : Edit) (s : Settings)
    → is_empty_patch s.pending ≡ true
    → s.requests ≡ []
    → s.answers ≡ []
    → let after = run (load_late e) s in
      (after.server ≡ edited e s.server)
      × (after.settings ≡ some s.server)
      × (after.loaded ≡ true)
      × (is_empty_patch after.pending ≡ true)
      × (after.timer ≡ false)
      × (after.requests ≡ [])
      × (after.answers ≡ [])
unfolding step update flush set_shown
run-load_late e s empty h k =
    rw (h, k, is_empty_patch-merged s.pending e)
      (
        rw (applied-merged s.pending e s.server) (rw (applied-empty s.pending s.server empty) refl),
        refl,
        refl,
        is_empty_patch-no_patch,
        refl,
        refl,
        refl,
      )
