-- ===== src/Main/Tests.antt =====
-- Loading a week on concrete answers.
use veckomenyn.Base.{ℕ, ◌≡◌, none, some, [], ◌∷◌, text, arith}
use veckomenyn.Route.{week}
use veckomenyn.Api.Http.{returns, throws}
use veckomenyn.Main.{Main, ready, by_id, Answer, run_effect, receive, answer_all}
use veckomenyn.Main.Loading.{answer_all-run_effect}

abbrev at_home : Main ℕ
at_home = record {
  status = ready;
  error_text = none;
  week = none;
  sidebar_refresh = 3;
  effect = 4;
  awaits = some (by_id 1);
}

-- The answer to the effect of before.
abbrev late : Answer ℕ
late = record { effect = 4; fetch = by_id 1; outcome = throws (text "offline") }

answer_all-run_effect_example :
    answer_all
      (late
        ∷ record {
          effect = (run_effect (week 2) at_home).effect;
          fetch = by_id 2;
          outcome = returns none;
        }
        ∷ late
        ∷ [])
      (run_effect (week 2) at_home)
    ≡ receive (by_id 2) (returns none) (run_effect (week 2) at_home)
unfolding run_effect
answer_all-run_effect_example =
    answer_all-run_effect (week 2) at_home (late ∷ []) (late ∷ []) (by_id 2) (returns none)
      (omega arith, tt) (omega arith, tt)
