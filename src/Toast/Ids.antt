-- ===== src/Toast/Ids.antt =====
-- The invariant of the store: at most three toasts, no two with one id.
use veckomenyn.Base.{
  ℕ, zero, suc, ◌≤◌, ◌≡◌, ◌≢◌, refl, subst, sym, none, some, List, [], ◌∷◌, ◌++◌, Text, arith,
  length, set, Bool-cases, inl, inr, ◌===◌, ===_iff, All, length-set, ◌==◌, Option-cases,
  All-append,
}
use veckomenyn.Toast.{
  ToastVariant, Toast, ToastOptions, ToastStore, max_visible, init, find_index, place, id_of,
  item_of, add, without, dismiss, clear,
}
use veckomenyn.Toast.Queue.{
  IsSubsequence, done, keep, skip, cap_queue-IsSubsequence, length-cap_queue,
}

abbrev pub Lacks : Text → List Toast → Type 0
Lacks id = All (λ (t : Toast). t.id ≢ id)

abbrev pub HasDistinctIds : List Toast → Type 0
HasDistinctIds [] = Unit
HasDistinctIds (t ∷ q) = Lacks t.id q × HasDistinctIds q

pub record IsValid (s : ToastStore) : Type 0 where
  pub fits : length s.toasts ≤ max_visible
  pub distinct : HasDistinctIds s.toasts

pub Lacks-IsSubsequence :
    (id : Text) {r q : List Toast} → IsSubsequence r q → Lacks id q → Lacks id r
Lacks-IsSubsequence id done h = tt
Lacks-IsSubsequence id (keep s) h = (h.0, Lacks-IsSubsequence id s h.1)
Lacks-IsSubsequence id (skip s) h = Lacks-IsSubsequence id s h.1

HasDistinctIds-IsSubsequence :
    {r q : List Toast} → IsSubsequence r q → HasDistinctIds q → HasDistinctIds r
HasDistinctIds-IsSubsequence done h = tt
HasDistinctIds-IsSubsequence (keep {t = t} s) h =
    (Lacks-IsSubsequence t.id s h.0, HasDistinctIds-IsSubsequence s h.1)
HasDistinctIds-IsSubsequence (skip s) h = HasDistinctIds-IsSubsequence s h.1

pub Lacks-of_find_index : (id : Text) (q : List Toast) → find_index id q ≡ none → Lacks id q
unfolding find_index
Lacks-of_find_index id [] e = tt
Lacks-of_find_index id (t ∷ q) e = ground (arith, ===_iff t.id id, Lacks-of_find_index id q)

HasDistinctIds-append :
    (q : List Toast) (t : Toast) → HasDistinctIds q → Lacks t.id q → HasDistinctIds (q ++ t ∷ [])
HasDistinctIds-append [] t h l = (tt, tt)
HasDistinctIds-append (u ∷ q) t h l = (
  All-append (λ (x : Toast). x.id ≢ u.id) q (t ∷ []) h.0 ((λ e. l.0 (sym e)), tt),
  HasDistinctIds-append q t h.1 l.1,
)

Lacks-set :
    (id : Text) (q : List Toast) (i : ℕ) (t : Toast) → Lacks id q → t.id ≢ id → Lacks id (set q i t)
Lacks-set id [] i t h n = tt
Lacks-set id (u ∷ q) zero t h n = (n, h.1)
Lacks-set id (u ∷ q) (suc i) t h n = (h.0, Lacks-set id q i t h.1 n)

-- A toast is replaced by one with the id by which it was found.
HasDistinctIds-set :
    (id : Text) (q : List Toast) (i : ℕ) (t : Toast)
    → find_index id q ≡ some i
    → t.id ≡ id
    → HasDistinctIds q
    → HasDistinctIds (set q i t)
unfolding find_index
HasDistinctIds-set id [] i t e same h = tt
HasDistinctIds-set id (u ∷ q) zero t e same h =
    let here : t.id ≡ u.id = ground (arith, ===_iff u.id id) in
    (subst (λ k. Lacks k q) (sym here) h.0, h.1)
HasDistinctIds-set id (u ∷ q) (suc i) t e same h =
    let later : find_index id q ≡ some i = ground arith in
    let other : t.id ≢ u.id = ground (arith, ===_iff u.id id) in
    (Lacks-set u.id q i t h.0 other, HasDistinctIds-set id q i t later same h.1)

-- A state of the queue that `add` can leave.
place-fits :
    (id : Text) (item : Toast) (q : List Toast)
    → length q ≤ max_visible
    → length (place (find_index id q) item q) ≤ max_visible
place-fits id item q h = elim (Option-cases (find_index id q)) [
  | inl e ↦ rw e (omega (arith, length-cap_queue (q ++ item ∷ [])))
  | inr (i, e) ↦ rw e (omega (arith, length-set q i item))
]

place-HasDistinctIds :
    (id : Text) (item : Toast) (q : List Toast)
    → item.id ≡ id
    → HasDistinctIds q
    → HasDistinctIds (place (find_index id q) item q)
place-HasDistinctIds id item q same h = elim (Option-cases (find_index id q)) [
  | inl e ↦ rw e (
      HasDistinctIds-IsSubsequence (cap_queue-IsSubsequence (q ++ item ∷ [])) (
        HasDistinctIds-append q item h
          (subst (λ k. Lacks k q) (sym same) (Lacks-of_find_index id q e))))
  | inr (i, e) ↦ rw e (HasDistinctIds-set id q i item e same h)
]

add-IsValid :
    (v : ToastVariant) (m : Text) (o : ToastOptions) (s : ToastStore)
    → IsValid s
    → IsValid (add v m o s).1
unfolding add
add-IsValid v m o s h = record {
  fits = place-fits (id_of o s) (item_of v m o s) s.toasts h.fits;
  distinct = place-HasDistinctIds (id_of o s) (item_of v m o s) s.toasts refl h.distinct;
}

without-IsSubsequence : (id : Text) (q : List Toast) → IsSubsequence (without id q) q
without-IsSubsequence id [] = done
without-IsSubsequence id (t ∷ q) = elim (Bool-cases (t.id === id)) [
  | inl e ↦ rw e (skip (without-IsSubsequence id q))
  | inr e ↦ rw e (keep (without-IsSubsequence id q))
]

pub length-without : (id : Text) (q : List Toast) → length (without id q) ≤ length q
length-without id [] = omega arith
length-without id (t ∷ q) = ground (arith, length-without id q)

dismiss-IsValid : (id : Text) (s : ToastStore) → IsValid s → IsValid (dismiss id s)
unfolding dismiss
dismiss-IsValid id s h = elim (Bool-cases (length (without id s.toasts) == length s.toasts)) [
  | inl e ↦ rw e h
  | inr e ↦ rw e (record {
    fits = omega (arith, h.fits, length-without id s.toasts);
    distinct = HasDistinctIds-IsSubsequence (without-IsSubsequence id s.toasts) h.distinct;
  })
]

clear-IsValid : (s : ToastStore) → IsValid s → IsValid (clear s)
unfolding clear
clear-IsValid s h = elim (Bool-cases (length s.toasts == 0)) [
  | inl e ↦ rw e h
  | inr e ↦ rw e (record { fits = omega arith; distinct = tt })
]

-- The calls that the application makes on `toast`.
pub data Call : Type 0 where
  show_toast : ToastVariant → Text → ToastOptions → Call
  hide : Text → Call
  hide_all : Call

abbrev pub run : List Call → ToastStore → ToastStore
run [] s = s
run (show_toast v m o ∷ calls) s = run calls (add v m o s).1
run (hide id ∷ calls) s = run calls (dismiss id s)
run (hide_all ∷ calls) s = run calls (clear s)

run-IsValid : (calls : List Call) (s : ToastStore) → IsValid s → IsValid (run calls s)
run-IsValid [] s h = h
run-IsValid (show_toast v m o ∷ calls) s h =
    run-IsValid calls (add v m o s).1 (add-IsValid v m o s h)
run-IsValid (hide id ∷ calls) s h = run-IsValid calls (dismiss id s) (dismiss-IsValid id s h)
run-IsValid (hide_all ∷ calls) s h = run-IsValid calls (clear s) (clear-IsValid s h)

-- After any calls from the start, at most three toasts are queued, and no two have one id, also where
-- the callers choose ids that look generated.
pub run-init-IsValid : (calls : List Call) → IsValid (run calls init)
run-init-IsValid calls = run-IsValid calls init (record { fits = omega arith; distinct = tt })
