-- ===== src/Main/Loading.antt =====
-- Which answers are shown.
use veckomenyn.Base.{
  ℕ, ◌+◌, ◌≤◌, ◌≢◌, ◌≡◌, refl, sym, ap, ◌∙◌, true, false, ◌==◌, ==_iff, Option, none, some, List,
  [], ◌∷◌, ◌++◌, All, subst, arith,
}
use veckomenyn.Route.{Route}
use veckomenyn.Api.Http.{Outcome, returns, throws}
use veckomenyn.Api.Types.{WeekDetail}
use veckomenyn.Main.{
  Main, Fetch, for_new, by_id, current, Answer, run_effect, receive, answer, answer_all,
}

module _ {N : Type 0} where
  -- The answer is not to the last effect of the state.
  abbrev pub IsStale : ℕ → Answer N → Type 0
  IsStale effect a = a.effect ≢ effect

  answer-IsStale : (a : Answer N) (s : Main N) → IsStale s.effect a → answer a s ≡ s
  unfolding answer
  answer-IsStale a s h =
      let other : (a.effect == s.effect) ≡ false = ground (arith, ==_iff a.effect s.effect) in
      rw other refl

  answer_all-IsStale :
      (xs : List (Answer N)) (s : Main N) → All (IsStale s.effect) xs → answer_all xs s ≡ s
  answer_all-IsStale [] s h = refl
  answer_all-IsStale (a ∷ rest) s h =
      ap (λ t. answer_all rest t) (answer-IsStale a s h.0) ∙ answer_all-IsStale rest s h.1

  effect-receive :
      (f : Fetch) (o : Outcome (Option (WeekDetail N))) (s : Main N)
      → (receive f o s).effect ≡ s.effect
  effect-receive f (throws message) s = refl
  effect-receive for_new (returns none) s = refl
  effect-receive for_new (returns (some w)) s = refl
  effect-receive (by_id id) (returns none) s = refl
  effect-receive (by_id id) (returns (some w)) s = refl
  effect-receive current (returns none) s = refl
  effect-receive current (returns (some w)) s = refl

  answer_all-append :
      (xs bs : List (Answer N)) (s : Main N)
      → answer_all (xs ++ bs) s ≡ answer_all bs (answer_all xs s)
  answer_all-append [] bs s = refl
  answer_all-append (a ∷ rest) bs s = answer_all-append rest bs (answer a s)

  answer_own :
      (f : Fetch) (o : Outcome (Option (WeekDetail N))) (s : Main N)
      → answer (record { effect = s.effect; fetch = f; outcome = o }) s ≡ receive f o s
  unfolding answer
  answer_own f o s = let own : (s.effect == s.effect) ≡ true = ground arith in rw own refl

effect-run_effect :
    {N : Type 0} (route : Route) (s : Main N) → (run_effect route s).effect ≡ s.effect + 1
unfolding run_effect
effect-run_effect route s = refl

-- The answer is to an effect that has run.
abbrev pub IsEarlier : {N : Type 0} → Main N → Answer N → Type 0
IsEarlier s a = a.effect ≤ s.effect

IsStale-of :
    {N : Type 0} (route : Route) (s : Main N) (xs : List (Answer N))
    → All (IsEarlier s) xs
    → All (IsStale (run_effect route s).effect) xs
IsStale-of route s [] h = tt
IsStale-of route s (a ∷ xs) h =
    (λ e. omega (arith, e, h.0, effect-run_effect route s), IsStale-of route s xs h.1)

-- The effect runs for a route, and answers arrive: late ones to effects that ran before this one, in any
-- number, before and after the one to this effect. Only the last one counts: the state is as if it came
-- alone.
pub answer_all-run_effect :
    {N : Type 0} (route : Route) (s : Main N) (before after : List (Answer N)) (f : Fetch)
    (o : Outcome (Option (WeekDetail N)))
    → All (IsEarlier s) before
    → All (IsEarlier s) after
    → answer_all
        (before
          ++ (record { effect = (run_effect route s).effect; fetch = f; outcome = o } ∷ after))
        (run_effect route s)
      ≡ receive f o (run_effect route s)
answer_all-run_effect {N} route s before after f o h k =
    let t = run_effect route s in
    let own : Answer N = record { effect = t.effect; fetch = f; outcome = o } in
    answer_all-append before (own ∷ after) t
    ∙ ap (answer_all (own ∷ after)) (answer_all-IsStale before t (IsStale-of route s before h))
    ∙ ap (answer_all after) (answer_own f o t)
    ∙ answer_all-IsStale after (receive f o t) (
        subst (λ n. All (IsStale n) after) (sym (effect-receive f o t))
          (IsStale-of route s after k))
