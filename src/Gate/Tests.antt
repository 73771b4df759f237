-- ===== src/Gate/Tests.antt =====
-- The gate of the setup on concrete events.
use veckomenyn.Base.{◌≡◌, ◌≢◌, refl, false, List, [], ◌∷◌, text}
use veckomenyn.Route.{home, week}
use veckomenyn.Api.Http.{returns, throws}
use veckomenyn.Gate.{
  init, on_complete, on_status, view, setup_wizard, bootstrap_splash, Event, status_answered,
  reloaded, run, step,
}
use veckomenyn.Gate.Complete.{view-run-on_complete}

-- A first start: the server knows of no setup.
abbrev before : List Event
before =
    status_answered home (
      returns (record {
        setup_complete = false;
        has_llm_provider = false;
        has_preferences = false;
        has_family_members = false;
      }))
    ∷ []

abbrev after : List Event
after = reloaded ∷ status_answered home (throws (text "offline")) ∷ reloaded ∷ []

shows_wizard : view home (run before (init false)) ≡ setup_wizard
unfolding view step on_status init
shows_wizard = refl

view-run-on_complete_example :
    (view (week 3) (run after (on_complete (run before (init false)))) ≢ setup_wizard)
    × (view (week 3) (run after (on_complete (run before (init false)))) ≢ bootstrap_splash)
view-run-on_complete_example = view-run-on_complete before after false (week 3)
