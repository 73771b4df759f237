-- ===== src/Toast/Shown.antt =====
-- Which toasts the user gets to see.
use veckomenyn.Base.{
  ℕ, zero, suc, ◌-◌, ◌≤◌, ◌≡◌, ◌≢◌, ◌↔◌, refl, ap, Bool, true, false, none, some, List, [], ◌∷◌,
  ◌++◌, Text, arith, length, set, drop, Bool-cases, inl, inr, ◌===◌, ===_iff, length-append, ◌==◌,
  ltb, leb, Option-cases, find,
}
use veckomenyn.Toast.{
  ToastVariant, error, Toast, ToastOptions, ToastStore, max_visible, is_error, drop_non_errors,
  cap_queue, find_index, place, id_of, item_of, add, without, dismiss,
}
use veckomenyn.Toast.Queue.{
  errors, others, length-errors-others, IsSubsequence, IsSubsequence-refl, IsSubsequence-drop,
  IsSubsequence-drop_non_errors,
}
use veckomenyn.Toast.Ids.{length-without, Lacks, Lacks-of_find_index, Lacks-IsSubsequence}

drop_non_errors-append :
    (n : ℕ) (q : List Toast) (t : Toast)
    → is_error t ≡ true
    → drop_non_errors n (q ++ t ∷ []) ≡ drop_non_errors n q ++ t ∷ []
unfolding drop_non_errors
drop_non_errors-append zero q t e = refl
drop_non_errors-append (suc n) [] t e = ground arith
drop_non_errors-append (suc n) (u ∷ q) t e =
    ground (arith, drop_non_errors-append (suc n) q t e, drop_non_errors-append n q t e)

drop-append :
    (k : ℕ) (q : List Toast) (t : Toast) → k ≤ length q → drop k (q ++ t ∷ []) ≡ drop k q ++ t ∷ []
drop-append zero q t h = refl
drop-append (suc k) [] t h = elim h [ ]
drop-append (suc k) (u ∷ q) t h = drop-append k q t (omega arith)

-- An error at the end of the queue stays at its end.
cap_queue-append :
    (q : List Toast) (t : Toast)
    → is_error t ≡ true
    → (r : List Toast) × (cap_queue (q ++ t ∷ []) ≡ r ++ t ∷ []) × IsSubsequence r q
unfolding cap_queue
cap_queue-append q t e = elim (Bool-cases (leb (length (q ++ t ∷ [])) max_visible)) [
  | inl short ↦ (q, rw short, IsSubsequence-refl q)
  | inr long ↦
      let n = length (q ++ t ∷ []) - max_visible in
      let q' = drop_non_errors n q in
      let moved = drop_non_errors-append n q t e in
      elim (Bool-cases (ltb max_visible (length (q' ++ t ∷ [])))) [
        | inl over ↦ (
          drop (length (q' ++ t ∷ []) - max_visible) q',
          rw (long, moved, over)
              (drop-append (length (q' ++ t ∷ []) - max_visible) q' t
                (omega (arith, length-append q' (t ∷ [])))),
          IsSubsequence-drop (length (q' ++ t ∷ []) - max_visible)
              (IsSubsequence-drop_non_errors n q),
        )
        | inr fits ↦ (q', rw (long, moved, fits), IsSubsequence-drop_non_errors n q)
      ]
]

abbrev pub has_id : Text → Toast → Bool
has_id id t = t.id === id

find-append :
    (id : Text) (r : List Toast) (t : Toast)
    → Lacks id r
    → t.id ≡ id
    → find (has_id id) (r ++ t ∷ []) ≡ some t
find-append id [] t h e = ground (arith, ===_iff t.id id)
find-append id (u ∷ r) t h e = ground (arith, ===_iff u.id id, find-append id r t h.1 e)

find-set :
    (id : Text) (q : List Toast) (i : ℕ) (t : Toast)
    → find_index id q ≡ some i
    → t.id ≡ id
    → find (has_id id) (set q i t) ≡ some t
unfolding find_index
find-set id [] i t h e = cc
find-set id (u ∷ q) zero t h e = ground (arith, ===_iff t.id id)
find-set id (u ∷ q) (suc i) t h e = ground (arith, find-set id q i t, ===_iff u.id id)

find-place :
    (id : Text) (q : List Toast) (t : Toast)
    → is_error t ≡ true
    → t.id ≡ id
    → find (has_id id) (place (find_index id q) t q) ≡ some t
find-place id q t err same = elim (Option-cases (find_index id q)) [
  | inl e ↦
      let (r, kept, sub) = cap_queue-append q t err in
      rw (e, kept)
        (find-append id r t (Lacks-IsSubsequence id sub (Lacks-of_find_index id q e)) same)
  | inr (i, e) ↦ rw e (find-set id q i t e same)
]

-- Whatever the queue holds, an error that is added is in it under the id that `toast.error` returns.
pub add_error_shown :
    (m : Text) (o : ToastOptions) (s : ToastStore)
    → find (has_id (add error m o s).0) (add error m o s).1.toasts ≡ some (item_of error m o s)
unfolding add
add_error_shown m o s = find-place (id_of o s) s.toasts (item_of error m o s) refl refl

drop_non_errors_last :
    (q : List Toast) (t : Toast)
    → length (others q) ≡ 0
    → is_error t ≡ false
    → drop_non_errors 1 (q ++ t ∷ []) ≡ q
unfolding drop_non_errors
drop_non_errors_last [] t h e = ground arith
drop_non_errors_last (u ∷ q) t h e = ground (arith, drop_non_errors_last q t)

cap_queue_full :
    (q : List Toast) (t : Toast)
    → length (errors q) ≡ max_visible
    → length q ≡ max_visible
    → is_error t ≡ false
    → cap_queue (q ++ t ∷ []) ≡ q
unfolding cap_queue
cap_queue_full q t h k e =
    let pure : length (others q) ≡ 0 = omega (arith, length-errors-others q) in
    let four : length (q ++ t ∷ []) ≡ 4 = omega (arith, length-append q (t ∷ [])) in
    rw (four, drop_non_errors_last q t pure e, k)

-- While three errors are shown, a success or information with a new id is not: the queue stays as it is.
pub add_suppressed :
    (v : ToastVariant) (m : Text) (o : ToastOptions) (s : ToastStore)
    → v ≢ error
    → length (errors s.toasts) ≡ max_visible
    → length s.toasts ≡ max_visible
    → find_index (id_of o s) s.toasts ≡ none
    → (add v m o s).1.toasts ≡ s.toasts
unfolding add
add_suppressed v m o s h k l e = rw e (cap_queue_full s.toasts (item_of v m o s) k l (ground arith))

find-without_self : (id : Text) (q : List Toast) → find (has_id id) (without id q) ≡ none
find-without_self id [] = refl
find-without_self id (t ∷ q) = ground (arith, find-without_self id q)

find-without_ne :
    (id j : Text) (q : List Toast) → j ≢ id → find (has_id j) (without id q) ≡ find (has_id j) q
find-without_ne id j [] h = refl
find-without_ne id j (t ∷ q) h =
    ground (arith, find-without_ne id j q h, ===_iff t.id id, ===_iff t.id j)

without_of_length :
    (id : Text) (q : List Toast) → length (without id q) ≡ length q → without id q ≡ q
without_of_length id [] h = refl
without_of_length id (t ∷ q) h = ground (arith, without_of_length id q, length-without id q)

toasts-dismiss : (id : Text) (s : ToastStore) → (dismiss id s).toasts ≡ without id s.toasts
unfolding dismiss
toasts-dismiss id s = ground (arith, without_of_length id s.toasts)

emits-dismiss :
    (id : Text) (s : ToastStore)
    → ((dismiss id s).emits ≡ s.emits) ↔ ((dismiss id s).toasts ≡ s.toasts)
unfolding dismiss
emits-dismiss id s = elim (Bool-cases (length (without id s.toasts) == length s.toasts)) [
  | inl e ↦ rw e (λ _. refl, λ _. refl)
  | inr e ↦ rw e (λ h. absurd (omega arith), λ h. ground (arith, ap length h))
]

-- `dismiss(id)` leaves no toast with that id and every other toast as it was, and calls the
-- listeners exactly when the queue changes.
pub dismiss_lem :
    (id : Text) (s : ToastStore)
    → (find (has_id id) (dismiss id s).toasts ≡ none)
      × ((j : Text) → j ≢ id → find (has_id j) (dismiss id s).toasts ≡ find (has_id j) s.toasts)
      × (((dismiss id s).emits ≡ s.emits) ↔ ((dismiss id s).toasts ≡ s.toasts))
dismiss_lem id s = (
  rw toasts-dismiss (find-without_self id s.toasts),
  λ j h. rw toasts-dismiss (find-without_ne id j s.toasts h),
  emits-dismiss id s,
)
