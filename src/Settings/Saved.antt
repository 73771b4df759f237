-- ===== src/Settings/Saved.antt =====
-- When the edits of the settings reach the server, and when they are shown.
use veckomenyn.Base.{
  ◌≡◌, refl, sym, ap, ◌∙◌, Bool, true, false, some, List, get_elem?, [], ◌∷◌, if◌then◌else◌, All,
}
use veckomenyn.Api.Types.{HouseholdSettings}
use veckomenyn.Settings.{
  Settings, flush, update, set_shown, Event, edit, timer_ends, stored, answered, refused, lost,
  toggled, step, run,
}
use veckomenyn.Settings.Patch.{Edit, edited, edit_all, is_empty_patch, applied-empty}
use veckomenyn.Settings.Steps.{
  stored_all, to_come, IsTimed, shown_last, IsFresh, update-to_come, flush-to_come, flush-IsFresh,
  flush-IsTimed, update-IsTimed, update-IsFresh, set_shown-to_come, set_shown-IsTimed,
  set_shown-IsFresh, on_request-to_come, on_request-IsTimed, on_request-IsFresh, on_answer-to_come,
  on_answer-IsTimed, on_answer-IsFresh, on_loss-to_come, on_loss-IsTimed,
}

abbrev pub edits_of : List Event → List Edit
edits_of [] = []
edits_of (edit e ∷ es) = e ∷ edits_of es
edits_of (timer_ends ∷ es) = edits_of es
edits_of (stored i ∷ es) = edits_of es
edits_of (answered i ∷ es) = edits_of es
edits_of (refused i message ∷ es) = edits_of es
edits_of (lost i message ∷ es) = edits_of es
edits_of (toggled b ∷ es) = edits_of es

-- Of the requests that have not reached the server, the one sent first is the next that does, and none
-- fails before.
abbrev pub IsStored : Event → Type 0
IsStored (stored i) = i ≡ 0
IsStored (refused i message) = ⊥
IsStored e = Unit

-- The answers also arrive in the order in which the server gave them, and none is lost.
abbrev pub IsOrdered : Event → Type 0
IsOrdered (stored i) = i ≡ 0
IsOrdered (answered i) = i ≡ 0
IsOrdered (refused i message) = ⊥
IsOrdered (lost i message) = ⊥
IsOrdered e = Unit

-- What the runs keep, with `v` for the settings that the server ends up with.
abbrev IsSaved : HouseholdSettings → Settings → Type 0
IsSaved v s = (to_come s ≡ v) × IsTimed s

flush-IsSaved :
    (v : HouseholdSettings) (b : Bool) (s : Settings)
    → IsSaved v s
    → IsSaved v (if b then flush s else s)
flush-IsSaved v true s (h, k) = (flush-to_come s ∙ h, flush-IsTimed s)
flush-IsSaved v false s h = h

flush_if-IsFresh : (b : Bool) (s : Settings) → IsFresh s → IsFresh (if b then flush s else s)
flush_if-IsFresh true s h = flush-IsFresh s h
flush_if-IsFresh false s h = h

run-IsSaved :
    (es : List Event) (s : Settings) (v : HouseholdSettings)
    → All IsStored es
    → IsSaved v s
    → IsSaved (edit_all (edits_of es) v) (run es s)
unfolding step
run-IsSaved [] s v c h = h
run-IsSaved (edit e ∷ es) s v (_, c) (h, k) =
    run-IsSaved es (update e s) (edited e v) c
      (update-to_come e s ∙ ap (edited e) h, update-IsTimed e s)
run-IsSaved (timer_ends ∷ es) s v (_, c) h =
    run-IsSaved es (step timer_ends s) v c (flush-IsSaved v s.timer s h)
run-IsSaved (stored i ∷ es) s v (z, c) (h, k) = rw z (
    run-IsSaved es (step (stored 0) s) v c
      (on_request-to_come s.requests s refl ∙ h, on_request-IsTimed (get_elem? s.requests 0) 0 s k))
run-IsSaved (answered i ∷ es) s v (_, c) (h, k) = run-IsSaved es (step (answered i) s) v c (
  on_answer-to_come (get_elem? s.answers i) i s ∙ h,
  on_answer-IsTimed (get_elem? s.answers i) i s k,
)
run-IsSaved (refused i message ∷ es) s v (b, c) h = elim b [ ]
run-IsSaved (lost i m ∷ es) s v (_, c) (h, k) = run-IsSaved es (step (lost i m) s) v c (
  on_loss-to_come m (get_elem? s.answers i) i s ∙ h,
  on_loss-IsTimed m (get_elem? s.answers i) i s k,
)
run-IsSaved (toggled b ∷ es) s v (_, c) (h, k) =
    run-IsSaved es (set_shown b s) v c (set_shown-to_come b s ∙ h, set_shown-IsTimed b s k)

run-IsFresh : (es : List Event) (s : Settings) → All IsOrdered es → IsFresh s → IsFresh (run es s)
unfolding step
run-IsFresh [] s c h = h
run-IsFresh (edit e ∷ es) s (_, c) h = run-IsFresh es (update e s) c (update-IsFresh e s)
run-IsFresh (timer_ends ∷ es) s (_, c) h =
    run-IsFresh es (step timer_ends s) c (flush_if-IsFresh s.timer s h)
run-IsFresh (stored i ∷ es) s (_, c) h =
    run-IsFresh es (step (stored i) s) c (on_request-IsFresh (get_elem? s.requests i) i s h)
run-IsFresh (answered i ∷ es) s (z, c) h =
    rw z (run-IsFresh es (step (answered 0) s) c (on_answer-IsFresh s.answers s refl h))
run-IsFresh (refused i message ∷ es) s (b, c) h = elim b [ ]
run-IsFresh (lost i message ∷ es) s (b, c) h = elim b [ ]
run-IsFresh (toggled b ∷ es) s (_, c) h = run-IsFresh es (set_shown b s) c (set_shown-IsFresh b s h)

IsStored-of : (es : List Event) → All IsOrdered es → All IsStored es
IsStored-of [] h = tt
IsStored-of (edit e ∷ es) h = (tt, IsStored-of es h.1)
IsStored-of (timer_ends ∷ es) h = (tt, IsStored-of es h.1)
IsStored-of (stored i ∷ es) h = (h.0, IsStored-of es h.1)
IsStored-of (answered i ∷ es) h = (tt, IsStored-of es h.1)
IsStored-of (refused i message ∷ es) h = elim h.0 [ ]
IsStored-of (lost i message ∷ es) h = elim h.0 [ ]
IsStored-of (toggled b ∷ es) h = (tt, IsStored-of es h.1)

run-IsTimed_pending :
    (es : List Event) (s : Settings)
    → All IsStored es
    → is_empty_patch s.pending ≡ true
    → (run es s).timer ≡ false
    → is_empty_patch (run es s).pending ≡ true
run-IsTimed_pending es s c e g = (run-IsSaved es s (to_come s) c (refl, λ a. e)).1 g

-- At first nothing is pending and no request is on its way to the server. Then the fields are edited,
-- the timer ends, the modal is closed and opened, and answers arrive in any order or are lost, at any
-- time; no request fails before the server has it, and the server has the requests in the order in
-- which they were sent. Once the timer is off and no request is on its way, the server has all edits,
-- made in their order to the settings it had.
pub run-edit_all :
    (es : List Event) (s : Settings)
    → All IsStored es
    → is_empty_patch s.pending ≡ true
    → s.requests ≡ []
    → (run es s).timer ≡ false
    → (run es s).requests ≡ []
    → (run es s).server ≡ edit_all (edits_of es) s.server
run-edit_all es s c e q g k =
    sym (stop (run-IsTimed_pending es s c e g)) ∙ (run-IsSaved es s s.server c (start, λ a. e)).0
  where
    start : to_come s ≡ s.server
    start =
        applied-empty s.pending (stored_all s.requests s.server) e
        ∙ ap (λ rs. stored_all rs s.server) q

    stop : is_empty_patch (run es s).pending ≡ true → to_come (run es s) ≡ (run es s).server
    stop p =
        applied-empty (run es s).pending (stored_all (run es s).requests (run es s).server) p
        ∙ ap (λ rs. stored_all rs (run es s).server) k

-- At first the server's settings are shown, with nothing pending and nothing under way. Then the fields
-- are edited, the timer ends and the modal is closed and opened at any time, where requests reach the
-- server and answers the page in the order in which they were sent, and none fails. Once the timer is
-- off and nothing is under way, the settings that are shown are the server's: they are the settings of
-- before with all edits made in their order.
pub run-settings :
    (es : List Event) (s : Settings)
    → All IsOrdered es
    → is_empty_patch s.pending ≡ true
    → s.requests ≡ []
    → s.answers ≡ []
    → s.settings ≡ some s.server
    → (run es s).timer ≡ false
    → (run es s).requests ≡ []
    → (run es s).answers ≡ []
    → ((run es s).settings ≡ some (run es s).server)
      × ((run es s).settings ≡ some (edit_all (edits_of es) s.server))
run-settings es s c e q a f g k l =
    let shown : (run es s).settings ≡ some (run es s).server =
      sym (ap (λ bs. shown_last bs (run es s).settings) l)
      ∙ run-IsFresh es s c (λ _ _. ap (λ bs. shown_last bs s.settings) a ∙ f)
          (run-IsTimed_pending es s (IsStored-of es c) e g) k in
    (shown, shown ∙ ap some (run-edit_all es s (IsStored-of es c) e q g k))
