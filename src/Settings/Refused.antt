-- ===== src/Settings/Refused.antt =====
-- What a refused patch of the settings leaves.
use veckomenyn.Base.{◌≡◌, refl, true, false, some, [], ◌∷◌, ◌++◌, Text}
use veckomenyn.Api.Types.{HouseholdSettings}
use veckomenyn.Settings.{Settings, flush, update, edit, timer_ends, refused, step, run}
use veckomenyn.Settings.Patch.{
  Edit, edited, is_empty_patch, is_empty_patch-merged, is_empty_patch-no_patch,
}

-- When settings are shown and no request is on its way to the server, and the patch of an edit is
-- refused, the message is shown, the field goes on showing the edit, the server does not have it, and
-- nothing is left that would send it again.
pub update-refused :
    (e : Edit) (s : Settings) (prev : HouseholdSettings) (message : Text)
    → s.settings ≡ some prev
    → s.requests ≡ []
    → let after = run (edit e ∷ timer_ends ∷ refused 0 message ∷ []) s in
      (after.errors ≡ s.errors ++ message ∷ [])
      × (after.settings ≡ some (edited e prev))
      × (after.server ≡ s.server)
      × (is_empty_patch after.pending ≡ true)
      × (after.timer ≡ false)
      × (after.requests ≡ [])
unfolding step update flush
update-refused e s prev message h k =
    rw (is_empty_patch-merged s.pending e)
      (rw h (rw k (refl, refl, refl, is_empty_patch-no_patch, refl, refl)))
