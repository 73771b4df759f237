-- ===== src/Retro/Kept.antt =====
-- No text of a retrospective is lost without a sign of it.
use veckomenyn.Base.{
  ℕ, zero, suc, ◌+◌, ◌≡◌, refl, sym, ap, ◌⊎◌, inl, inr, Bool, true, false, not, ◌||◌, Option, none,
  some, List, [], ◌∷◌, ◌++◌, Text, ◌===◌, ===_iff, ===_refl, get_elem?, is_some, get_or, subst, All,
  All-append, arith, Bool-cases, ltb,
}
use veckomenyn.Retro.{
  Retro, Timer, Notice, no_notice, retrying, failed, Event, typed, debounce_ends, retry_ends,
  leaked_ends, retry_pressed, answered, Answer, stored, refused, init, begin_save, remove_at,
  succeed, fail, leak, retro_max_attempts, change, step, run, on_debounce, on_retry, on_leaked,
  press_button, on_answer,
}

-- A timer saves this text.
abbrev pub Saves : Text → Timer → Type 0
Saves v t = t.text ≡ v

abbrev pub SavesIf : Text → Option Timer → Type 0
SavesIf v none = Unit
SavesIf v (some t) = Saves v t

abbrev pub Offers : Text → Notice → Type 0
Offers v (failed message next) = next ≡ v
Offers v _ = Unit

abbrev pub is_offer : Notice → Bool
is_offer (failed message next) = true
is_offer _ = false

abbrev pub is_under_way : List Text → Bool
is_under_way [] = false
is_under_way (_ ∷ _) = true

-- A save is under way, or a timer or the button of the toast will start one.
abbrev pub pending : Retro → Bool
pending s = is_some s.debounce || is_some s.retry || is_under_way s.in_flight || is_offer s.notice

-- Whatever saves a text saves the one that is shown.
pub record IsCurrent (s : Retro) : Type 0 where
  pub debounce : SavesIf s.value s.debounce
  pub retry : SavesIf s.value s.retry
  pub leaked : All (Saves s.value) s.leaked
  pub in_flight : All (λ v. v ≡ s.value) s.in_flight
  pub notice : Offers s.value s.notice
  pub stored : s.saved ≡ s.server
  pub marked : s.dirty ≡ not (s.value === s.saved)

-- The text that is shown is saved, or will be.
abbrev pub IsSafe : Retro → Type 0
IsSafe s = (s.value ≡ s.saved) ⊎ (pending s ≡ true)

abbrev pub IsKept : Retro → Type 0
IsKept s = IsCurrent s × IsSafe s

-- While a request or a leaked timer is there, nothing is typed.
abbrev pub IsQuiet : List Event → Retro → Type 0
IsQuiet [] s = Unit
IsQuiet (typed next ∷ es) s =
    (s.in_flight ≡ []) × (s.leaked ≡ []) × IsQuiet es (step (typed next) s)
IsQuiet (e ∷ es) s = IsQuiet es (step e s)

init-IsCurrent : (initial : Text) → IsCurrent (init initial)
init-IsCurrent initial = record {
  debounce = tt;
  retry = tt;
  leaked = tt;
  in_flight = tt;
  notice = tt;
  stored = refl;
  marked = ap not (sym (===_refl initial));
}

change-IsCurrent :
    (next : Text) (s : Retro)
    → s.in_flight ≡ []
    → s.leaked ≡ []
    → IsCurrent s
    → IsCurrent (change next s)
unfolding change
change-IsCurrent next s none_in_flight none_leaked h = record {
  debounce = refl;
  retry = tt;
  leaked = rw none_leaked tt;
  in_flight = rw none_in_flight tt;
  notice = tt;
  stored = h.stored;
  marked = refl;
}

remove_at-All : (P : Text → Type 0) (i : ℕ) (xs : List Text) → All P xs → All P (remove_at i xs)
remove_at-All P i [] h = h
remove_at-All P zero (x ∷ xs) h = h.1
remove_at-All P (suc i) (x ∷ xs) h = (h.0, remove_at-All P i xs h.1)

get_elem?-All :
    (P : Text → Type 0) (xs : List Text) (i : ℕ) (x : Text)
    → All P xs
    → get_elem? xs i ≡ some x
    → P x
get_elem?-All P [] i x h e = ground arith
get_elem?-All P (y ∷ xs) zero x h e = subst P (ap (λ o. get_or o y) e) h.0
get_elem?-All P (y ∷ xs) (suc i) x h e = get_elem?-All P xs i x h.1 e

is_under_way-snoc : (xs : List Text) (x : Text) → is_under_way (xs ++ x ∷ []) ≡ true
is_under_way-snoc [] x = refl
is_under_way-snoc (y ∷ xs) x = refl

begin_save-IsCurrent :
    (next : Text) (s : Retro) → next ≡ s.value → IsCurrent s → IsCurrent (begin_save next s)
begin_save-IsCurrent next s same h = record {
  debounce = h.debounce;
  retry = h.retry;
  leaked = h.leaked;
  in_flight = All-append (λ v. v ≡ s.value) s.in_flight (next ∷ []) h.in_flight (same, tt);
  notice = h.notice;
  stored = h.stored;
  marked = h.marked;
}

succeed-IsCurrent :
    (next : Text) (s : Retro) → next ≡ s.value → IsCurrent s → IsCurrent (succeed next s)
unfolding succeed
succeed-IsCurrent next s same h = record {
  debounce = h.debounce;
  retry = h.retry;
  leaked = h.leaked;
  in_flight = h.in_flight;
  notice = tt;
  stored = refl;
  marked = ap not (sym ((===_iff s.value next).1 (sym same)));
}

leak-All :
    (v : Text) (o : Option Timer) (ts : List Timer)
    → SavesIf v o
    → All (Saves v) ts
    → All (Saves v) (leak o ts)
leak-All v none ts h k = k
leak-All v (some t) ts h k = (h, k)

fail-IsCurrent :
    (next message : Text) (s : Retro)
    → next ≡ s.value
    → IsCurrent s
    → IsCurrent (fail next message s)
unfolding fail
fail-IsCurrent next message s same h = elim (Bool-cases (ltb (s.attempts + 1) retro_max_attempts)) [
  | inl again ↦ rw again (record {
    debounce = h.debounce;
    retry = same;
    leaked = leak-All s.value s.retry s.leaked h.retry h.leaked;
    in_flight = h.in_flight;
    notice = tt;
    stored = h.stored;
    marked = h.marked;
  })
  | inr last ↦ rw last (record {
    debounce = h.debounce;
    retry = h.retry;
    leaked = h.leaked;
    in_flight = h.in_flight;
    notice = same;
    stored = h.stored;
    marked = h.marked;
  })
]

press_button-IsCurrent :
    (n : Notice) (s : Retro) → Offers s.value n → IsCurrent s → IsCurrent (press_button n s)
press_button-IsCurrent no_notice s o h = h
press_button-IsCurrent (retrying message) s o h = h
press_button-IsCurrent (failed message next) s o h = record {
  debounce = h.debounce;
  retry = h.retry;
  leaked = h.leaked;
  in_flight = All-append (λ v. v ≡ s.value) s.in_flight (next ∷ []) h.in_flight (o, tt);
  notice = tt;
  stored = h.stored;
  marked = h.marked;
}

begin_save-IsSafe : (next : Text) (s : Retro) → IsSafe (begin_save next s)
begin_save-IsSafe next s = inr (ground (arith, is_under_way-snoc s.in_flight next))

fail-IsSafe : (next message : Text) (s : Retro) → IsSafe (fail next message s)
unfolding fail
fail-IsSafe next message s = elim (Bool-cases (ltb (s.attempts + 1) retro_max_attempts)) [
  | inl again ↦ rw again (inr (ground arith))
  | inr last ↦ rw last (inr (ground arith))
]

on_debounce-IsKept :
    (o : Option Timer) (s : Retro) → SavesIf s.value o → IsKept s → IsKept (on_debounce o s)
on_debounce-IsKept none s same h = h
on_debounce-IsKept (some t) s same h =
    let rest = record s { debounce = none } in
    (
      begin_save-IsCurrent t.text rest same (record {
        debounce = tt;
        retry = h.0.retry;
        leaked = h.0.leaked;
        in_flight = h.0.in_flight;
        notice = h.0.notice;
        stored = h.0.stored;
        marked = h.0.marked;
      }),
      begin_save-IsSafe t.text rest,
    )

on_retry-IsKept :
    (o : Option Timer) (s : Retro) → SavesIf s.value o → IsKept s → IsKept (on_retry o s)
on_retry-IsKept none s same h = h
on_retry-IsKept (some t) s same h =
    let rest = record s { retry = none } in
    (
      begin_save-IsCurrent t.text rest same (record {
        debounce = h.0.debounce;
        retry = tt;
        leaked = h.0.leaked;
        in_flight = h.0.in_flight;
        notice = h.0.notice;
        stored = h.0.stored;
        marked = h.0.marked;
      }),
      begin_save-IsSafe t.text rest,
    )

on_leaked-IsKept :
    (ts : List Timer) (s : Retro) → All (Saves s.value) ts → IsKept s → IsKept (on_leaked ts s)
on_leaked-IsKept [] s same h = h
on_leaked-IsKept (t ∷ ts) s same h =
    let rest = record s { leaked = ts } in
    (
      begin_save-IsCurrent t.text rest same.0 (record {
        debounce = h.0.debounce;
        retry = h.0.retry;
        leaked = same.1;
        in_flight = h.0.in_flight;
        notice = h.0.notice;
        stored = h.0.stored;
        marked = h.0.marked;
      }),
      begin_save-IsSafe t.text rest,
    )

press_button-IsSafe : (n : Notice) (s : Retro) → IsSafe s → IsSafe (press_button n s)
press_button-IsSafe no_notice s h = h
press_button-IsSafe (retrying message) s h = h
press_button-IsSafe (failed message next) s h =
    inr (ground (arith, is_under_way-snoc s.in_flight next))

answer_taken :
    (i : ℕ) (s : Retro) → IsCurrent s → IsCurrent (record s { in_flight = remove_at i s.in_flight })
answer_taken i s h = record {
  debounce = h.debounce;
  retry = h.retry;
  leaked = h.leaked;
  in_flight = remove_at-All (λ v. v ≡ s.value) i s.in_flight h.in_flight;
  notice = h.notice;
  stored = h.stored;
  marked = h.marked;
}

on_answer-IsKept :
    (o : Option Text) (i : ℕ) (a : Answer) (s : Retro)
    → get_elem? s.in_flight i ≡ o
    → IsKept s
    → IsKept (on_answer o i a s)
unfolding succeed
on_answer-IsKept none i a s e h = h
on_answer-IsKept (some next) i stored s e h =
    let same = get_elem?-All (λ v. v ≡ s.value) s.in_flight i next h.0.in_flight e in
    (succeed-IsCurrent next _ same (answer_taken i s h.0), inl (sym same))
on_answer-IsKept (some next) i (refused message) s e h =
    let same = get_elem?-All (λ v. v ≡ s.value) s.in_flight i next h.0.in_flight e in
    (fail-IsCurrent next message _ same (answer_taken i s h.0), fail-IsSafe next message _)

run-IsKept : (es : List Event) (s : Retro) → IsQuiet es s → IsKept s → IsKept (run es s)
unfolding step
run-IsKept [] s q h = h
run-IsKept (typed next ∷ es) s q h =
    run-IsKept es (step (typed next) s) q.2
      (change-IsCurrent next s q.0 q.1 h.0, unfold change in inr refl)
run-IsKept (debounce_ends ∷ es) s q h =
    run-IsKept es (step debounce_ends s) q (on_debounce-IsKept s.debounce s h.0.debounce h)
run-IsKept (retry_ends ∷ es) s q h =
    run-IsKept es (step retry_ends s) q (on_retry-IsKept s.retry s h.0.retry h)
run-IsKept (leaked_ends ∷ es) s q h =
    run-IsKept es (step leaked_ends s) q (on_leaked-IsKept s.leaked s h.0.leaked h)
run-IsKept (retry_pressed ∷ es) s q h =
    run-IsKept es (step retry_pressed s) q
      (press_button-IsCurrent s.notice s h.0.notice h.0, press_button-IsSafe s.notice s h.1)
run-IsKept (answered i a ∷ es) s q h =
    run-IsKept es (step (answered i a) s) q
      (on_answer-IsKept (get_elem? s.in_flight i) i a s refl h)

-- If nothing is typed while a request or an unnamed timer is there, and the error toast stays until
-- its button is pressed, which dismisses it, then whatever is typed, whenever the timers end and however the server answers: each
-- save under way, each timer and the button save the text that is shown, the mark for unsaved changes is
-- right, and a text that is not stored has a save under way, a timer, or the button.
pub run-init-IsKept :
    (initial : Text) (es : List Event) → IsQuiet es (init initial) → IsKept (run es (init initial))
run-init-IsKept initial es q = run-IsKept es (init initial) q (init-IsCurrent initial, inl refl)
