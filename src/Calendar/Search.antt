-- ===== src/Calendar/Search.antt =====
-- The search for a year and for a month: the last value of a growing function that a number reaches.
use veckomenyn.Base.{
  ℕ, zero, suc, ◌+◌, ◌-◌, ◌≤◌, ◌<◌, ◌≡◌, leb, Bool-cases, inl, inr, arith, ◌==◌, ◌⊎◌, subst,
}
use veckomenyn.Calendar.{last_at_most}

suc_add : (d a : ℕ) → suc (d + a) ≡ suc d + a
suc_add d a = omega arith

zero_add : (a : ℕ) → a ≡ 0 + a
zero_add a = omega arith

le_refl : (a : ℕ) → a ≤ a
le_refl a = omega arith

le_trans : {a b c : ℕ} → a ≤ b → b ≤ c → a ≤ c
le_trans h k = omega arith

le_cases : (m k : ℕ) → m ≤ suc k → (m ≡ suc k) ⊎ ((d : ℕ) × (d + suc m ≡ suc k))
le_cases m k h = elim (Bool-cases (m == suc k)) [
  | inl e ↦ inl (ground arith)
  | inr e ↦ inr (k - m, ground arith)
]

module _ (f : ℕ → ℕ) (step : (j : ℕ) → f j ≤ f (suc j)) where
  pub mono : (a d : ℕ) → f a ≤ f (d + a)
  mono a zero = let e : a ≡ 0 + a = zero_add a in subst (λ x. f a ≤ f x) e (le_refl (f a))
  mono a (suc d) = subst (λ x. f a ≤ f x) (suc_add d a) (le_trans (mono a d) (step (d + a)))

  pub last_at_most_lem : (k n m : ℕ) → m ≤ k → f m ≤ n → n < f (suc m) → last_at_most f k n ≡ m
  unfolding last_at_most
  last_at_most_lem zero n m h l u = omega arith
  last_at_most_lem (suc k) n m h l u = elim (le_cases m k h) [
    | inl e ↦ rw e (ground (arith, subst (λ x. f x ≤ n) e l))
    | inr (d, e) ↦
        let above : f (suc m) ≤ f (suc k) = subst (λ x. f (suc m) ≤ f x) e (mono (suc m) d) in
        ground (arith, above, u, last_at_most_lem k n m (omega (arith, e)) l u)
  ]

  -- The value found is the last one, when the search starts behind it.
  pub last_at_most_bounds :
      (k n : ℕ)
      → f 0 ≤ n
      → n < f (suc k)
      → (f (last_at_most f k n) ≤ n) × (n < f (suc (last_at_most f k n))) × (last_at_most f k n ≤ k)
  unfolding last_at_most
  last_at_most_bounds zero n l u = (l, u, omega arith)
  last_at_most_bounds (suc k) n l u = elim (Bool-cases (leb (f (suc k)) n)) [
    | inl e ↦ rw e (ground arith, u, omega arith)
    | inr e ↦
        let rest = last_at_most_bounds k n l (ground arith) in
        rw e (rest.0, rest.1, omega (arith, rest.2))
  ]
