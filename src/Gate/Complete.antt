-- ===== src/Gate/Complete.antt =====
-- The gate of the setup opens once.
use veckomenyn.Base.{◌≡◌, ◌≢◌, refl, Bool, true, some, List, [], ◌∷◌, arith, Bool-cases, inl, inr}
use veckomenyn.Route.{Route}
use veckomenyn.Gate.{
  Gate, init, is_print, on_status, on_complete, setup_wizard, bootstrap_splash, view, Event,
  status_answered, wizard_completed, reloaded, step, run,
}

-- The gate has been opened for good.
pub record IsDone (s : Gate) : Type 0 where
  pub complete : s.setup_complete ≡ some true
  pub stored : s.stored ≡ true

step-IsDone : (e : Event) (s : Gate) → IsDone s → IsDone (step e s)
unfolding step on_status on_complete init
step-IsDone (status_answered route outcome) s h =
    rw h.complete (record { complete = refl; stored = h.stored })
step-IsDone wizard_completed s h = record { complete = refl; stored = refl }
step-IsDone reloaded s h = rw h.stored (record { complete = refl; stored = refl })

run-IsDone : (es : List Event) (s : Gate) → IsDone s → IsDone (run es s)
run-IsDone [] s h = h
run-IsDone (e ∷ es) s h = run-IsDone es (step e s) (step-IsDone e s h)

view-IsDone :
    (route : Route) (s : Gate)
    → IsDone s
    → (view route s ≢ setup_wizard) × (view route s ≢ bootstrap_splash)
unfolding view
view-IsDone route s h = rw h.complete (elim (Bool-cases (is_print route)) [
  | inl printed ↦ rw printed ((λ e. ground (arith, e)), (λ e. ground (arith, e)))
  | inr other ↦ rw other ((λ e. ground (arith, e)), (λ e. ground (arith, e)))
])

-- Once the wizard is completed, neither the wizard nor the splash is shown again, on any route, whatever
-- the server answers and however often the page is loaded again.
pub view-run-on_complete :
    (before after : List Event) (stored : Bool) (route : Route)
    → (view route (run after (on_complete (run before (init stored)))) ≢ setup_wizard)
      × (view route (run after (on_complete (run before (init stored)))) ≢ bootstrap_splash)
unfolding on_complete
view-run-on_complete before after stored route = view-IsDone route _ (
    run-IsDone after (on_complete (run before (init stored)))
      (record { complete = refl; stored = refl }))
