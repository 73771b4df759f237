-- ===== src/Settings/Steps.antt =====
-- What each step of the settings keeps of the edits that are on their way, and of the timer.
use veckomenyn.Base.{
  ℕ, ◌≡◌, refl, sym, ap, ◌∙◌, Bool, true, false, Option, none, some, List, Text, get_elem?, [], ◌∷◌,
  ◌++◌, inl, inr, Bool-cases,
}
use veckomenyn.Api.Types.{HouseholdSettings}
use veckomenyn.Settings.{
  Request, load, save, Answer, loaded_with, saved_as, Settings, flush, update, set_shown, stored_by,
  answer_of, on_request, on_answer, on_loss,
}
use veckomenyn.Settings.Patch.{
  Edit, applied, edited, is_empty_patch, applied-merged, applied-empty, applied-no_patch,
  is_empty_patch-no_patch, is_empty_patch-merged,
}

abbrev pub stored_all : List Request → HouseholdSettings → HouseholdSettings
stored_all [] v = v
stored_all (r ∷ rs) v = stored_all rs (stored_by r v)

-- What the server has when the requests under way and then the pending patch have reached it.
abbrev pub to_come : Settings → HouseholdSettings
to_come s = applied s.pending (stored_all s.requests s.server)

stored_all-append :
    (rs : List Request) (r : Request) (v : HouseholdSettings)
    → stored_all (rs ++ r ∷ []) v ≡ stored_by r (stored_all rs v)
stored_all-append [] r v = refl
stored_all-append (q ∷ rs) r v = stored_all-append rs r (stored_by q v)

-- A patch waits for its timer.
abbrev pub IsTimed : Settings → Type 0
IsTimed s = s.timer ≡ false → is_empty_patch s.pending ≡ true

abbrev value_of : Answer → HouseholdSettings
value_of (loaded_with v) = v
value_of (saved_as l v) = v

-- What is shown when all answers have arrived in order.
abbrev pub shown_last : List Answer → Option HouseholdSettings → Option HouseholdSettings
shown_last [] o = o
shown_last (a ∷ bs) o = shown_last bs (some (value_of a))

-- With nothing pending and no request to store the last answer brings the server's settings.
abbrev pub IsFresh : Settings → Type 0
IsFresh s =
    is_empty_patch s.pending ≡ true
    → s.requests ≡ []
    → shown_last s.answers s.settings ≡ some s.server

shown_last-append :
    (bs : List Answer) (a : Answer) (o : Option HouseholdSettings)
    → shown_last (bs ++ a ∷ []) o ≡ some (value_of a)
shown_last-append [] a o = refl
shown_last-append (b ∷ bs) a o = shown_last-append bs a (some (value_of b))

value_of-answer_of : (r : Request) (v : HouseholdSettings) → value_of (answer_of r v) ≡ v
value_of-answer_of load v = refl
value_of-answer_of (save p) v = refl

not_append {ℓ} : {A B : Type ℓ} (xs : List A) (x : A) → xs ++ x ∷ [] ≡ [] → B
not_append [] x e = cc
not_append (y ∷ xs) x e = cc

true≢false {ℓ} : {B : Type ℓ} → true ≡ false → B
true≢false e = cc

pub update-to_come : (e : Edit) (s : Settings) → to_come (update e s) ≡ edited e (to_come s)
unfolding update
update-to_come e s = applied-merged s.pending e (stored_all s.requests s.server)

pub flush-to_come : (s : Settings) → to_come (flush s) ≡ to_come s
unfolding flush
flush-to_come s = elim (Bool-cases (is_empty_patch s.pending)) [
  | inl e ↦ rw e (
      applied-no_patch (stored_all s.requests s.server)
      ∙ sym (applied-empty s.pending (stored_all s.requests s.server) e))
  | inr e ↦ rw e (
      applied-no_patch (stored_all (s.requests ++ save s.pending ∷ []) s.server)
      ∙ stored_all-append s.requests (save s.pending) s.server)
]

pub flush-IsFresh : (s : Settings) → IsFresh s → IsFresh (flush s)
unfolding flush
flush-IsFresh s h = elim (Bool-cases (is_empty_patch s.pending)) [
  | inl e ↦ rw e (λ a b. h e b)
  | inr e ↦ rw e (λ a b. not_append s.requests (save s.pending) b)
]

pub flush-IsTimed : (s : Settings) → IsTimed (flush s)
unfolding flush
flush-IsTimed s = elim (Bool-cases (is_empty_patch s.pending)) [
  | inl e ↦ rw e (λ a. is_empty_patch-no_patch)
  | inr e ↦ rw e (λ a. is_empty_patch-no_patch)
]

pub update-IsTimed : (e : Edit) (s : Settings) → IsTimed (update e s)
unfolding update
update-IsTimed e s = λ a. cc

pub update-IsFresh : (e : Edit) (s : Settings) → IsFresh (update e s)
unfolding update
update-IsFresh e s = λ a b. (true≢false (sym a ∙ is_empty_patch-merged s.pending e))

pub set_shown-to_come : (b : Bool) (s : Settings) → to_come (set_shown b s) ≡ to_come s
unfolding set_shown
set_shown-to_come true s = ap (applied s.pending) (stored_all-append s.requests load s.server)
set_shown-to_come false s = elim (Bool-cases (is_empty_patch s.pending)) [
  | inl e ↦ rw e refl
  | inr e ↦ rw e (flush-to_come (record s { is_shown = false }))
]

pub set_shown-IsTimed : (b : Bool) (s : Settings) → IsTimed s → IsTimed (set_shown b s)
unfolding set_shown
set_shown-IsTimed true s h = h
set_shown-IsTimed false s h = elim (Bool-cases (is_empty_patch s.pending)) [
  | inl e ↦ rw e (λ a. e)
  | inr e ↦ rw e (flush-IsTimed (record s { is_shown = false }))
]

pub set_shown-IsFresh : (b : Bool) (s : Settings) → IsFresh s → IsFresh (set_shown b s)
unfolding set_shown
set_shown-IsFresh true s h = λ a b. not_append s.requests load b
set_shown-IsFresh false s h = elim (Bool-cases (is_empty_patch s.pending)) [
  | inl e ↦ rw e (λ a b. h e b)
  | inr e ↦ rw e (flush-IsFresh (record s { is_shown = false }) h)
]

pub on_request-to_come :
    (rs : List Request) (s : Settings)
    → s.requests ≡ rs
    → to_come (on_request (get_elem? rs 0) 0 s) ≡ to_come s
on_request-to_come [] s e = refl
on_request-to_come (r ∷ rs) s e = rw e refl

pub on_request-IsTimed :
    (o : Option Request) (i : ℕ) (s : Settings) → IsTimed s → IsTimed (on_request o i s)
on_request-IsTimed none i s h = h
on_request-IsTimed (some r) i s h = h

pub on_request-IsFresh :
    (o : Option Request) (i : ℕ) (s : Settings) → IsFresh s → IsFresh (on_request o i s)
on_request-IsFresh none i s h = h
on_request-IsFresh (some r) i s h = λ a b.
    shown_last-append s.answers (answer_of r (stored_by r s.server)) s.settings
    ∙ ap some (value_of-answer_of r (stored_by r s.server))

pub on_answer-to_come :
    (o : Option Answer) (i : ℕ) (s : Settings) → to_come (on_answer o i s) ≡ to_come s
on_answer-to_come none i s = refl
on_answer-to_come (some (loaded_with v)) i s = refl
on_answer-to_come (some (saved_as l v)) i s = refl

pub on_answer-IsTimed :
    (o : Option Answer) (i : ℕ) (s : Settings) → IsTimed s → IsTimed (on_answer o i s)
on_answer-IsTimed none i s h = h
on_answer-IsTimed (some (loaded_with v)) i s h = h
on_answer-IsTimed (some (saved_as l v)) i s h = h

pub on_answer-IsFresh :
    (bs : List Answer) (s : Settings)
    → s.answers ≡ bs
    → IsFresh s
    → IsFresh (on_answer (get_elem? bs 0) 0 s)
on_answer-IsFresh [] s e h = h
on_answer-IsFresh (loaded_with v ∷ bs) s e h =
    rw e (λ a b. sym (ap (λ cs. shown_last cs s.settings) e) ∙ h a b)
on_answer-IsFresh (saved_as l v ∷ bs) s e h =
    rw e (λ a b. sym (ap (λ cs. shown_last cs s.settings) e) ∙ h a b)

pub on_loss-to_come :
    (m : Text) (o : Option Answer) (i : ℕ) (s : Settings) → to_come (on_loss m o i s) ≡ to_come s
on_loss-to_come m none i s = refl
on_loss-to_come m (some a) i s = refl

pub on_loss-IsTimed :
    (m : Text) (o : Option Answer) (i : ℕ) (s : Settings) → IsTimed s → IsTimed (on_loss m o i s)
on_loss-IsTimed m none i s h = h
on_loss-IsTimed m (some a) i s h = h
