-- ===== src/Rating/Agree.antt =====
-- When the server ends up with the verdict that is shown.
use veckomenyn.Base.{
  ℕ, get_elem?, ◌≡◌, refl, sym, ap, ◌∙◌, Option, none, some, List, [], ◌∷◌, ◌++◌, Text, arith,
}
use veckomenyn.Api.Types.{DinnerRating}
use veckomenyn.Rating.{
  Write, put_rating, delete_rating, Verdict, Rating, pick_rating, timer_for, change_notes, clear,
  on_timer, refetched, stored, deliver, if_rated, Event, picked, typed, cleared, timer_ends,
  delivered, refused, reloaded, step, run,
}

-- What the server has when all requests have reached it, and then the one of the timer.
abbrev pub stored_all : List Write → Verdict → Verdict
stored_all [] v = v
stored_all (w ∷ ws) v = stored_all ws (stored w v)

abbrev pub stored_if : Option Write → Verdict → Verdict
stored_if none v = v
stored_if (some w) v = stored w v

abbrev pub to_come : Rating → Verdict
to_come s = stored_if s.timer (stored_all s.in_flight s.server)

stored_all-append :
    (xs ys : List Write) (v : Verdict) → stored_all (xs ++ ys) v ≡ stored_all ys (stored_all xs v)
stored_all-append [] ys v = refl
stored_all-append (x ∷ xs) ys v = stored_all-append xs ys (stored x v)

-- A rating is cleared, and a week loaded again, only while no timer runs; a week is loaded again only
-- while no request is under way. Requests are stored in the order in which they were sent, and none is
-- refused.
abbrev pub IsCalm : List Event → Rating → Type 0
IsCalm [] s = Unit
IsCalm (cleared ∷ es) s = (s.timer ≡ none) × IsCalm es (step cleared s)
IsCalm (reloaded ∷ es) s = (s.timer ≡ none) × (s.in_flight ≡ []) × IsCalm es (step reloaded s)
IsCalm (delivered i ∷ es) s = (i ≡ 0) × IsCalm es (step (delivered i) s)
IsCalm (refused i message ∷ es) s = ⊥
IsCalm (e ∷ es) s = IsCalm es (step e s)

pick_rating-to_come :
    (r : DinnerRating) (s : Rating) → to_come (pick_rating r s) ≡ (pick_rating r s).shown
unfolding pick_rating
pick_rating-to_come r s = stored_all-append s.in_flight (put_rating r s.shown.notes ∷ []) s.server

-- With a rating, the timer of the notes brings exactly what is shown.
stored_if-timer_for :
    (o : Option DinnerRating) (r : DinnerRating) (next : Text) (timer : Option Write) (v : Verdict)
    → o ≡ some r
    → stored_if (timer_for o next timer) v ≡ record { rating = o; notes = next }
stored_if-timer_for none r next timer v e = cc
stored_if-timer_for (some q) r next timer v e = refl

typed-to_come :
    (o : Option DinnerRating) (next : Text) (s : Rating)
    → s.shown.rating ≡ o
    → to_come s ≡ s.shown
    → to_come (if_rated o s (change_notes next s)) ≡ (if_rated o s (change_notes next s)).shown
unfolding change_notes
typed-to_come none next s e h = h
typed-to_come (some r) next s e h =
    stored_if-timer_for s.shown.rating r next s.timer (stored_all s.in_flight s.server) e

clear-to_come : (s : Rating) → s.timer ≡ none → to_come (clear s) ≡ (clear s).shown
unfolding clear
clear-to_come s e = rw e (stored_all-append s.in_flight (delete_rating ∷ []) s.server)

on_timer-to_come :
    (o : Option Write) (s : Rating) → s.timer ≡ o → to_come (on_timer o s) ≡ to_come s
on_timer-to_come none s e = refl
on_timer-to_come (some w) s e = rw e (stored_all-append s.in_flight (w ∷ []) s.server)

deliver-to_come :
    (ws : List Write) (s : Rating)
    → s.in_flight ≡ ws
    → to_come (deliver (get_elem? ws 0) 0 s) ≡ to_come s
deliver-to_come [] s e = refl
deliver-to_come (w ∷ ws) s e = rw e refl

cleared-to_come :
    (o : Option DinnerRating) (s : Rating)
    → s.timer ≡ none
    → to_come s ≡ s.shown
    → to_come (if_rated o s (clear s)) ≡ (if_rated o s (clear s)).shown
cleared-to_come none s e h = h
cleared-to_come (some r) s e h = clear-to_come s e

on_timer-shown : (o : Option Write) (s : Rating) → (on_timer o s).shown ≡ s.shown
on_timer-shown none s = refl
on_timer-shown (some w) s = refl

deliver-shown : (o : Option Write) (i : ℕ) (s : Rating) → (deliver o i s).shown ≡ s.shown
deliver-shown none i s = refl
deliver-shown (some w) i s = refl

refetched-to_come :
    (s : Rating)
    → s.timer ≡ none
    → s.in_flight ≡ []
    → to_come s ≡ s.shown
    → to_come (refetched s.server s) ≡ (refetched s.server s).shown
unfolding refetched
refetched-to_come s e f h = ground (
  arith,
  ap (λ o. stored_if o (stored_all s.in_flight s.server)) e ∙ ap (λ ws. stored_all ws s.server) f,
  h,
)

delivered-to_come :
    (i : ℕ) (s : Rating)
    → i ≡ 0
    → to_come s ≡ s.shown
    → to_come (deliver (get_elem? s.in_flight i) i s) ≡ s.shown
delivered-to_come i s z h = rw z (deliver-to_come s.in_flight s refl ∙ h)

run-to_come :
    (es : List Event) (s : Rating)
    → IsCalm es s
    → to_come s ≡ s.shown
    → to_come (run es s) ≡ (run es s).shown
unfolding step
run-to_come [] s c h = h
run-to_come (picked r ∷ es) s c h = run-to_come es (step (picked r) s) c (pick_rating-to_come r s)
run-to_come (typed next ∷ es) s c h =
    run-to_come es (step (typed next) s) c (typed-to_come s.shown.rating next s refl h)
run-to_come (cleared ∷ es) s (e, c) h =
    run-to_come es (step cleared s) c (cleared-to_come s.shown.rating s e h)
run-to_come (timer_ends ∷ es) s c h =
    run-to_come es (step timer_ends s) c
      (on_timer-to_come s.timer s refl ∙ h ∙ sym (on_timer-shown s.timer s))
run-to_come (delivered i ∷ es) s (z, c) h =
    run-to_come es (step (delivered i) s) c
      (delivered-to_come i s z h ∙ sym (deliver-shown (get_elem? s.in_flight i) i s))
run-to_come (refused i message ∷ es) s c h = elim c [ ]
run-to_come (reloaded ∷ es) s (e, f, c) h =
    run-to_come es (step reloaded s) c (refetched-to_come s e f h)

-- At first the server has the verdict that is shown, the timer is off and no request is under way.
-- Then ratings are picked and cleared, notes typed and timers ended, in any order with the requests
-- that are stored, where a rating is cleared and the week loaded again only while the timer is off, and
-- the week only while no request is under way, requests are stored in the order in which they were
-- sent, and none is refused. When the timer is off again and no request is under way, the server has
-- exactly the verdict that is shown.
pub run-stored :
    (es : List Event) (s : Rating)
    → s.timer ≡ none
    → s.in_flight ≡ []
    → s.server ≡ s.shown
    → IsCalm es s
    → (run es s).timer ≡ none
    → (run es s).in_flight ≡ []
    → (run es s).server ≡ (run es s).shown
run-stored es s e f h c g k =
    sym (ap (λ ws. stored_all ws (run es s).server) k)
    ∙ sym (ap (λ o. stored_if o (stored_all (run es s).in_flight (run es s).server)) g)
    ∙ run-to_come es s c (
        ap (λ o. stored_if o (stored_all s.in_flight s.server)) e
        ∙ ap (λ ws. stored_all ws s.server) f
        ∙ h)

-- Clearing a rating leaves the timer of its notes on: when a rating is shown and no request is under
-- way, notes are typed for it, it is cleared, the timer ends, and both requests are stored in their
-- order, the server has the rating again, while none is shown.
pub clear-on_timer :
    (r : DinnerRating) (next : Text) (s : Rating)
    → s.shown.rating ≡ some r
    → s.in_flight ≡ []
    → let after = run (typed next ∷ cleared ∷ timer_ends ∷ delivered 0 ∷ delivered 0 ∷ []) s in
      (after.shown.rating ≡ none) × (after.server.rating ≡ some r) × (after.in_flight ≡ [])
unfolding step change_notes clear
clear-on_timer r next s e f = rw e (rw f (refl, refl, refl))
