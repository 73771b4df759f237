-- ===== src/Toast/Queue.antt =====
-- What `capQueue` keeps.
use native.Mathlib.Decide.{dec_le}
use veckomenyn.Base.{
  ℕ, zero, suc, ◌+◌, ◌-◌, ◌≤◌, ◌<◌, min, ◌≡◌, refl, ap, sym, ◌∙◌, not, List, [], ◌∷◌, arith, length,
  drop, keep_if, Bool-cases, inl, inr, length-drop, leb, ltb,
}
use veckomenyn.Toast.{Toast, max_visible, is_error, drop_non_errors, last_visible, cap_queue}

abbrev pub errors : List Toast → List Toast
errors = keep_if is_error

abbrev pub others : List Toast → List Toast
others = keep_if (λ t. not (is_error t))

-- `ys` is `xs` with some entries left out.
pub data IsSubsequence : List Toast → List Toast → Type 0 where
  done : IsSubsequence [] []
  keep : {t : Toast} {ys xs : List Toast} → IsSubsequence ys xs → IsSubsequence (t ∷ ys) (t ∷ xs)
  skip : {t : Toast} {ys xs : List Toast} → IsSubsequence ys xs → IsSubsequence ys (t ∷ xs)

pub length-errors-others : (q : List Toast) → length (errors q) + length (others q) ≡ length q
length-errors-others [] = refl
length-errors-others (t ∷ q) = ground (arith, length-errors-others q)

errors-drop_non_errors : (n : ℕ) (q : List Toast) → errors (drop_non_errors n q) ≡ errors q
unfolding drop_non_errors
errors-drop_non_errors zero q = refl
errors-drop_non_errors (suc n) [] = refl
errors-drop_non_errors (suc n) (t ∷ q) =
    ground (arith, errors-drop_non_errors (suc n) q, errors-drop_non_errors n q)

others-drop_non_errors : (n : ℕ) (q : List Toast) → others (drop_non_errors n q) ≡ drop n (others q)
unfolding drop_non_errors
others-drop_non_errors zero q = refl
others-drop_non_errors (suc n) [] = refl
others-drop_non_errors (suc n) (t ∷ q) =
    ground (arith, others-drop_non_errors (suc n) q, others-drop_non_errors n q)

-- With no other toast left the queue is its errors.
errors_of_no_others : (q : List Toast) → length (others q) ≡ 0 → errors q ≡ q
errors_of_no_others [] h = refl
errors_of_no_others (t ∷ q) h = ground (arith, errors_of_no_others q)

others_of_no_others : (q : List Toast) → length (others q) ≡ 0 → others q ≡ []
others_of_no_others [] h = refl
others_of_no_others (t ∷ q) h = ground (arith, others_of_no_others q)

no_others-drop : (k : ℕ) (q : List Toast) → length (others q) ≡ 0 → length (others (drop k q)) ≡ 0
no_others-drop zero q h = h
no_others-drop (suc k) [] h = h
no_others-drop (suc k) (t ∷ q) h = no_others-drop k q (ground arith)

-- The queue after the loop, when it holds more than `max_visible` errors: its errors alone.
drop_non_errors_over :
    (q : List Toast)
    → max_visible < length (errors q)
    → drop_non_errors (length q - max_visible) q ≡ errors q
drop_non_errors_over q h =
    let r = drop_non_errors (length q - max_visible) q in
    let none_left : length (others r) ≡ 0 = omega (
      arith,
      ap length (others-drop_non_errors (length q - max_visible) q),
      length-drop (length q - max_visible) (others q),
      length-errors-others q,
    ) in
    sym (errors_of_no_others r none_left) ∙ errors-drop_non_errors (length q - max_visible) q

length-drop_non_errors :
    (q : List Toast)
    → length (drop_non_errors (length q - max_visible) q)
      ≡ length (errors q) + (length (others q) - (length q - max_visible))
length-drop_non_errors q =
    let k = length q - max_visible in
    omega (
      arith,
      length-errors-others (drop_non_errors k q),
      ap length (others-drop_non_errors k q),
      ap length (errors-drop_non_errors k q),
      length-drop k (others q),
    )

abbrev pub KeepsLatest : List Toast → List Toast → Type 0
KeepsLatest q r =
    (errors r ≡ drop (length (errors q) - max_visible) (errors q))
    × (others r ≡ drop (length (others q) - (max_visible - length (errors q))) (others q))

no_others-errors : (q : List Toast) → length (others (errors q)) ≡ 0
no_others-errors [] = refl
no_others-errors (t ∷ q) = ground (arith, no_others-errors q)

drop_all : (k : ℕ) (q : List Toast) → length q ≤ k → drop k q ≡ []
drop_all zero [] h = refl
drop_all zero (t ∷ q) h = absurd (omega arith)
drop_all (suc k) [] h = refl
drop_all (suc k) (t ∷ q) h = drop_all k q (omega arith)

KeepsLatest-over :
    (q : List Toast)
    → max_visible < length (errors q)
    → KeepsLatest q (drop (length (errors q) - max_visible) (errors q))
KeepsLatest-over q h =
    let k = length (errors q) - max_visible in
    let pure = no_others-drop k (errors q) (no_others-errors q) in
    (
      errors_of_no_others (drop k (errors q)) pure,
      others_of_no_others (drop k (errors q)) pure ∙ sym (drop_all _ (others q) (omega arith)),
    )

KeepsLatest-loop :
    (q : List Toast)
    → length (errors q) ≤ max_visible
    → max_visible < length q
    → KeepsLatest q (drop_non_errors (length q - max_visible) q)
KeepsLatest-loop q h k =
    let all_errors : length (errors q) - max_visible ≡ 0 = omega arith in
    let same : length q - max_visible ≡ length (others q) - (max_visible - length (errors q)) =
      omega (arith, length-errors-others q) in
    (
      errors-drop_non_errors (length q - max_visible) q
          ∙ ap (λ n. drop n (errors q)) (sym all_errors),
      others-drop_non_errors (length q - max_visible) q ∙ ap (λ n. drop n (others q)) same,
    )

KeepsLatest-short : (q : List Toast) → length q ≤ max_visible → KeepsLatest q q
KeepsLatest-short q h =
    let none_extra : length (errors q) - max_visible ≡ 0 = omega (arith, length-errors-others q) in
    let none_lost : length (others q) - (max_visible - length (errors q)) ≡ 0 =
      omega (arith, length-errors-others q) in
    (ap (λ n. drop n (errors q)) (sym none_extra), ap (λ n. drop n (others q)) (sym none_lost))

cap_queue_short : (q : List Toast) → length q ≤ max_visible → cap_queue q ≡ q
unfolding cap_queue
cap_queue_short q h = ground arith

cap_queue_loop :
    (q : List Toast)
    → length (errors q) ≤ max_visible
    → max_visible < length q
    → cap_queue q ≡ drop_non_errors (length q - max_visible) q
unfolding cap_queue
cap_queue_loop q h k = ground (arith, length-drop_non_errors q, length-errors-others q)

cap_queue_over :
    (q : List Toast)
    → max_visible < length (errors q)
    → cap_queue q ≡ drop (length (errors q) - max_visible) (errors q)
unfolding cap_queue
cap_queue_over q h = ground (arith, drop_non_errors_over q, length-errors-others q)

-- Of any queue, `capQueue` keeps the last three errors, and of the other toasts the latest that fill
-- the places which the errors leave.
pub cap_queue-KeepsLatest : (q : List Toast) → KeepsLatest q (cap_queue q)
cap_queue-KeepsLatest q = elim (dec_le (length q) max_visible) [
  | yes short ↦ rw (cap_queue_short q short) (KeepsLatest-short q short)
  | no long ↦ elim (dec_le (length (errors q)) max_visible) [
    | yes few ↦ rw (cap_queue_loop q few (omega arith)) (KeepsLatest-loop q few (omega arith))
    | no many ↦ rw (cap_queue_over q (omega arith)) (KeepsLatest-over q (omega arith))
  ]
]

-- `capQueue` leaves exactly `MAX_VISIBLE` toasts of a longer queue, and all of a shorter one.
pub length-cap_queue : (q : List Toast) → length (cap_queue q) ≡ min (length q) max_visible
length-cap_queue q = omega (
  arith,
  length-errors-others q,
  length-errors-others (cap_queue q),
  ap length (cap_queue-KeepsLatest q).0,
  ap length (cap_queue-KeepsLatest q).1,
  length-drop (length (errors q) - max_visible) (errors q),
  length-drop (length (others q) - (max_visible - length (errors q))) (others q),
)

pub IsSubsequence-refl : (q : List Toast) → IsSubsequence q q
IsSubsequence-refl [] = done
IsSubsequence-refl (t ∷ q) = keep (IsSubsequence-refl q)

pub IsSubsequence-drop : (k : ℕ) {r q : List Toast} → IsSubsequence r q → IsSubsequence (drop k r) q
IsSubsequence-drop zero h = h
IsSubsequence-drop (suc k) done = done
IsSubsequence-drop (suc k) (keep h) = skip (IsSubsequence-drop k h)
IsSubsequence-drop (suc k) (skip h) = skip (IsSubsequence-drop (suc k) h)

pub IsSubsequence-drop_non_errors : (n : ℕ) (q : List Toast) → IsSubsequence (drop_non_errors n q) q
unfolding drop_non_errors
IsSubsequence-drop_non_errors zero q = IsSubsequence-refl q
IsSubsequence-drop_non_errors (suc n) [] = done
IsSubsequence-drop_non_errors (suc n) (t ∷ q) = elim (Bool-cases (is_error t)) [
  | inl e ↦ rw (e, drop_non_errors) (keep (IsSubsequence-drop_non_errors (suc n) q))
  | inr e ↦ rw (e, drop_non_errors) (skip (IsSubsequence-drop_non_errors n q))
]

IsSubsequence-last_visible :
    (r q : List Toast) → IsSubsequence r q → IsSubsequence (last_visible r) q
IsSubsequence-last_visible r q h = elim (Bool-cases (ltb max_visible (length r))) [
  | inl e ↦ rw e (IsSubsequence-drop (length r - max_visible) h)
  | inr e ↦ rw e h
]

-- `capQueue` keeps the order of the toasts that it keeps, and adds none.
pub cap_queue-IsSubsequence : (q : List Toast) → IsSubsequence (cap_queue q) q
unfolding cap_queue
cap_queue-IsSubsequence q = elim (Bool-cases (leb (length q) max_visible)) [
  | inl e ↦ rw e (IsSubsequence-refl q)
  | inr e ↦ rw e (
      IsSubsequence-last_visible (drop_non_errors (length q - max_visible) q) q
        (IsSubsequence-drop_non_errors (length q - max_visible) q))
]
