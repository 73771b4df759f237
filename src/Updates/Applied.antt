-- ===== src/Updates/Applied.antt =====
-- An update that was started: how long its banner polls, and what the page that is loaded then shows.
use veckomenyn.Base.{
  ℕ, ◌+◌, ◌-◌, ◌*◌, ◌≤◌, ◌<◌, ◌≡◌, refl, sym, ap, ◌∙◌, ◌⊎◌, inl, inr, false, ltb, Option, none,
  some, List, [], ◌∷◌, Text, ◌===◌, is_empty, length, subst, Bool-cases, arith,
}
use veckomenyn.Api.Admin.{UpdateStatus}
use veckomenyn.Updates.{
  waiting, failed, Poll, Banner, mount, on_version, apply, on_applied, timeout, is_target, tick,
  tick_all,
}

-- Each tick is at least two seconds after the one before.
abbrev pub IsPaced : ℕ → List (ℕ × Option Text) → Type 0
IsPaced earliest [] = Unit
IsPaced earliest ((now, version) ∷ ts) = (earliest ≤ now) × IsPaced (now + 2000) ts

-- The polling is over, by the one page load or as a failure.
abbrev pub IsOver : ℕ → Banner → Type 0
IsOver reloads s = (s.poll ≡ none) × ((s.reloads ≡ reloads + 1) ⊎ (s.apply_state ≡ failed))

tick_all-none : (ts : List (ℕ × Option Text)) (s : Banner) → s.poll ≡ none → tick_all ts s ≡ s
unfolding tick
tick_all-none [] s e = refl
tick_all-none ((now, version) ∷ ts) s e =
    ap (λ o. tick_all ts (tick now version o s)) e ∙ tick_all-none ts s e

tick_all-IsOver :
    (ts : List (ℕ × Option Text)) (r : ℕ) (s : Banner) → IsOver r s → IsOver r (tick_all ts s)
tick_all-IsOver ts r s h = subst (IsOver r) (sym (tick_all-none ts s h.0)) h

-- A tick ends the polling, or the time is not over and all is as before.
tick-cases :
    (now : ℕ) (version : Option Text) (p : Poll) (s : Banner)
    → IsOver s.reloads (tick now version (some p) s)
      ⊎ ((now ≤ p.started + timeout) × (tick now version (some p) s ≡ s))
unfolding tick
tick-cases now version p s = elim (Bool-cases (ltb timeout (now - p.started))) [
  | inl e ↦ rw e (inl (refl, inr refl))
  | inr e ↦ elim (Bool-cases (is_target p.target version)) [
    | inl f ↦ rw e (rw f (inl (refl, inl refl)))
    | inr f ↦ rw e (rw f (inr (ground arith, refl)))
  ]
]

tick_of-cases :
    (now : ℕ) (version : Option Text) (p : Poll) (o : Option Poll) (s : Banner)
    → o ≡ some p
    → IsOver s.reloads (tick now version o s)
      ⊎ ((now ≤ p.started + timeout) × (tick now version o s ≡ s))
tick_of-cases now version p o s e =
    subst
      (λ o.
        IsOver s.reloads (tick now version o s)
        ⊎ ((now ≤ p.started + timeout) × (tick now version o s ≡ s)))
      (sym e) (tick-cases now version p s)

tick_all-ends :
    (ts : List (ℕ × Option Text)) (earliest : ℕ) (p : Poll) (s : Banner)
    → s.poll ≡ some p
    → IsPaced earliest ts
    → earliest ≤ p.started + timeout + 2000
    → p.started + timeout + 2000 < earliest + 2000 * length ts
    → IsOver s.reloads (tick_all ts s)
tick_all-ends [] earliest p s e h l k = absurd (omega arith)
tick_all-ends ((now, version) ∷ ts) earliest p s e (h, m) l k =
    elim (tick_of-cases now version p s.poll s e) [
      | inl over ↦ tick_all-IsOver ts s.reloads (tick now version s.poll s) over
      | inr (early, same) ↦
          subst (λ q. IsOver s.reloads (tick_all ts q)) (sym same)
            (tick_all-ends ts (now + 2000) p s e m (omega arith) (omega arith))
    ]

-- The banner does not poll for ever: when an update was started at a time, at most 150 ticks, the first of them
-- three seconds later and each next one two seconds or more after the one before, load the page, once,
-- or say that the update has failed, whatever the server answers.
pub on_applied-ends :
    (status : UpdateStatus) (now : ℕ) (ts : List (ℕ × Option Text)) (s : Banner)
    → IsPaced (now + 3000) ts
    → 150 ≤ length ts
    → IsOver s.reloads (tick_all ts (on_applied status (inl now) s))
unfolding on_applied
on_applied-ends status now ts s h k =
    tick_all-ends ts (now + 3000) (record { target = status.latest; started = now })
      (record s {
        apply_state = waiting;
        poll = some (record { target = status.latest; started = now });
      })
      refl h (omega arith) (omega arith)

tick-keys :
    (now : ℕ) (version : Option Text) (o : Option Poll) (s : Banner)
    → (tick now version o s).upgraded_from_key ≡ s.upgraded_from_key
unfolding tick
tick-keys now version none s = refl
tick-keys now version (some p) s = ground arith

tick_all-keys :
    (ts : List (ℕ × Option Text)) (s : Banner)
    → (tick_all ts s).upgraded_from_key ≡ s.upgraded_from_key
tick_all-keys [] s = refl
tick_all-keys ((now, version) ∷ ts) s =
    tick_all-keys ts (tick now version s.poll s) ∙ tick-keys now version s.poll s

-- From an update to the news of it: after an update was started and the banner has polled, the page that
-- is loaded when the new version runs shows the two versions, once, since the marker is taken away. The
-- two versions differ and are not empty.
pub apply-on_version :
    (status : UpdateStatus) (now : ℕ) (ts : List (ℕ × Option Text)) (s : Banner)
    → is_empty status.current ≡ false
    → is_empty status.latest ≡ false
    → (status.latest === status.current) ≡ false
    → let before = tick_all ts (on_applied status (inl now) (apply status s)) in
      let after = on_version status.latest (mount before.dismissed_key before.upgraded_from_key) in
      (after.upgraded_from ≡ some status.current)
      × (after.upgraded_to ≡ some status.latest)
      × (after.upgraded_from_key ≡ none)
unfolding on_version on_applied apply
apply-on_version status now ts s h k l =
    let kept = tick_all-keys ts (on_applied status (inl now) (apply status s)) in
    rw kept (rw h (rw k (rw l (refl, refl, refl))))
