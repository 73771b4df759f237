-- ===== src/Wizard/Walk.antt =====
-- What the setup has done when it is completed.
use veckomenyn.Base.{
  ℕ, ◌+◌, ◌≤◌, ◌≡◌, refl, Bool, true, false, not, ◌&&◌, Option, none, some, is_some, List, [], ◌∷◌,
  Text, text, subst, is_empty, trim, inl, inr, if◌then◌else◌, ◌⊎◌, arith,
}
use veckomenyn.Api.Types.{ProviderPatch}
use veckomenyn.Wizard.{
  Step, welcome, api_key, seed, done, saving, Wizard, init, finish, next, next_from, back,
  back_from, index_of, save_key, on_saved, seed_all, on_seeded, is_welcome, is_api_key, is_seed,
  is_idle, if_request, Event, next_pressed, back_pressed, save_pressed, seed_pressed,
  finish_pressed, typed, saved, seeded, press, run,
}

-- How often the server has stored a key.
abbrev pub stored_by : Event → Option ProviderPatch → ℕ
stored_by (saved none) (some p) = 1
stored_by e o = 0

abbrev pub stored : List Event → Wizard → ℕ
stored [] s = 0
stored (e ∷ es) s = stored_by e s.request + stored es (press e s)

-- The last step and the end are reached with a key only.
abbrev IsKeyed : ℕ → Wizard → Type 0
IsKeyed n s = (is_seed s.step ≡ true → 1 ≤ n) × (1 ≤ s.completed → 1 ≤ n)

IsKeyed-if :
    (b : Bool) (n : ℕ) (s t : Wizard)
    → IsKeyed n s
    → (b ≡ true → IsKeyed n t)
    → IsKeyed n (if b then t else s)
IsKeyed-if true n s t h k = k refl
IsKeyed-if false n s t h k = h

IsKeyed-flip :
    (b : Bool) (n : ℕ) (s t : Wizard) → IsKeyed n s → IsKeyed n t → IsKeyed n (if b then s else t)
IsKeyed-flip true n s t h k = h
IsKeyed-flip false n s t h k = k

on_seeded-IsKeyed : (a : ℕ ⊎ Text) (n : ℕ) (s : Wizard) → IsKeyed n s → IsKeyed n (on_seeded a s)
on_seeded-IsKeyed (inl m) n s h = h
on_seeded-IsKeyed (inr message) n s h = h

next-IsKeyed :
    (st : Step) (n : ℕ) (s : Wizard)
    → is_welcome st ≡ true
    → IsKeyed n s
    → IsKeyed n (next_from (index_of st) s)
next-IsKeyed welcome n s e h = (λ a. cc, h.1)
next-IsKeyed api_key n s e h = cc
next-IsKeyed seed n s e h = cc
next-IsKeyed done n s e h = cc

back-IsKeyed :
    (st : Step) (n : ℕ) (s : Wizard) → IsKeyed n s → IsKeyed n (back_from (index_of st) s)
back-IsKeyed welcome n s h = h
back-IsKeyed api_key n s h = (λ a. cc, h.1)
back-IsKeyed seed n s h = (λ a. cc, h.1)
back-IsKeyed done n s h = h

saved-IsKeyed :
    (o : Option ProviderPatch) (a : Option Text) (n : ℕ) (s : Wizard)
    → IsKeyed n s
    → IsKeyed (n + stored_by (saved a) o) (if_request o s (on_saved a s))
unfolding on_saved
saved-IsKeyed none none n s h = (λ a. omega (arith, h.0 a), λ a. omega (arith, h.1 a))
saved-IsKeyed none (some message) n s h = (λ a. omega (arith, h.0 a), λ a. omega (arith, h.1 a))
saved-IsKeyed (some p) none n s h = (λ a. omega arith, λ a. omega arith)
saved-IsKeyed (some p) (some message) n s h = (λ a. omega (arith, h.0 a), λ a. omega (arith, h.1 a))

same : (n : ℕ) (s : Wizard) → IsKeyed n s → IsKeyed (n + 0) s
same n s h = (λ a. omega (arith, h.0 a), λ a. omega (arith, h.1 a))

save_key-IsKeyed : (n : ℕ) (s : Wizard) → IsKeyed n s → IsKeyed n (save_key s)
unfolding save_key
save_key-IsKeyed n s h =
    IsKeyed-flip (is_empty (trim s.api_key)) n s
      (record s {
        busy = saving;
        error = none;
        request =
            some (record {
              enabled = some true;
              config = some ((text "api_key", trim s.api_key) ∷ []);
            });
      })
      h h

press-IsKeyed :
    (e : Event) (n : ℕ) (s : Wizard) → IsKeyed n s → IsKeyed (n + stored_by e s.request) (press e s)
unfolding press next back
press-IsKeyed next_pressed n s h =
    same n (press next_pressed s)
      (IsKeyed-if (is_welcome s.step) n s (next s) h (λ e. next-IsKeyed s.step n s e h))
press-IsKeyed back_pressed n s h = same n (press back_pressed s) (
    IsKeyed-if (not (is_welcome s.step) && is_idle s.busy) n s (back s) h
      (λ e. back-IsKeyed s.step n s h))
press-IsKeyed save_pressed n s h = same n (press save_pressed s) (
    IsKeyed-if (is_api_key s.step && is_idle s.busy) n s (save_key s) h
      (λ e. save_key-IsKeyed n s h))
press-IsKeyed seed_pressed n s h = same n (press seed_pressed s) (
    IsKeyed-if (is_seed s.step && not (is_some s.seeded_count) && is_idle s.busy) n s (seed_all s) h
      (λ e. h))
press-IsKeyed finish_pressed n s h =
    same n (press finish_pressed s)
      (IsKeyed-if (is_seed s.step) n s (finish s) h (λ e. (h.0, λ a. h.0 e)))
press-IsKeyed (typed value) n s h =
    same n (press (typed value) s)
      (IsKeyed-if (is_api_key s.step) n s (record s { api_key = value }) h (λ e. h))
press-IsKeyed (saved answer) n s h = saved-IsKeyed s.request answer n s h
press-IsKeyed (seeded answer) n s h =
    same n (press (seeded answer) s)
      (IsKeyed-flip (is_idle s.busy) n s (on_seeded answer s) h (on_seeded-IsKeyed answer n s h))

run-IsKeyed :
    (es : List Event) (n : ℕ) (s : Wizard) → IsKeyed n s → IsKeyed (n + stored es s) (run es s)
run-IsKeyed [] n s h = same n s h
run-IsKeyed (e ∷ es) n s h =
    subst (λ m. IsKeyed m (run es (press e s)))
      (assoc n (stored_by e s.request) (stored es (press e s)))
      (run-IsKeyed es (n + stored_by e s.request) (press e s) (press-IsKeyed e n s h))
  where
    assoc : (a b c : ℕ) → a + b + c ≡ a + (b + c)
    assoc a b c = omega arith

-- However the buttons of the setup are pressed and its requests answered, the setup is completed only when
-- the server has stored an API key before, and so is its last step reached.
pub run-completed :
    (es : List Event)
    → (1 ≤ (run es init).completed → 1 ≤ stored es init)
      × (is_seed (run es init).step ≡ true → 1 ≤ stored es init)
run-completed es =
    let keyed = run-IsKeyed es 0 init (λ a. cc, λ a. omega arith) in
    (λ h. omega (arith, keyed.1 h), λ h. omega (arith, keyed.0 h))
