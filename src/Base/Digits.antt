-- ===== src/Base/Digits.antt =====
-- Decimal numerals: `String(n)` for an integer, and the value of a run of digits.
use Prim.Native.Nat.{ℕ, zero, suc, ◌+◌, ◌-◌, ◌*◌, ◌/◌, ◌%◌, ◌<◌, ◌≤◌}
use mathlib.Core.Path.{◌≡◌, refl, ◌∙◌, ap, ap₂}
use mathlib.Core.Bool.{true}
use mathlib.Core.Logic.{inl, inr, ◌≢◌}
use mathlib.Core.List.{[], ◌∷◌}
use native.Mathlib.Omega.{arith}
use veckomenyn.Base.Tests.{◌==◌, Bool-cases, if◌then◌else◌}
use veckomenyn.Base.Lists.{length, all}
use veckomenyn.Base.Strings.{Text, is_digit}

-- The fuel bounds the number of digits; `n + 1` is more than enough.
show_from : ℕ → ℕ → Text → Text
show_from zero n acc = acc
show_from (suc f) n acc =
    let acc' = (48 + n % 10) ∷ acc in
    let rest = show_from f (n / 10) acc' in if n / 10 == 0 then acc' else rest

unfoldable pub show : ℕ → Text
unfolding show_from
show n = show_from (suc n) n []

abbrev pub value_from : ℕ → Text → ℕ
value_from v [] = v
value_from v (c ∷ s) = value_from (v * 10 + (c - 48)) s

abbrev pub value : Text → ℕ
value s = value_from 0 s

value_from-show_from :
    (f n : ℕ) (acc : Text) → n < f → value_from 0 (show_from f n acc) ≡ value_from n acc
unfolding show_from
value_from-show_from zero n acc h = elim h [ ]
value_from-show_from (suc f) n acc h = elim (Bool-cases (n / 10 == 0)) [
  | inl last ↦ rw last (ap (λ v. value_from v acc) (ground arith))
  | inr more ↦ rw more (
      value_from-show_from f (n / 10) ((48 + n % 10) ∷ acc) (ground arith)
      ∙ ap (λ v. value_from v acc) (ground arith))
]

-- Printing a number and reading it back gives the number.
pub value-show : (n : ℕ) → value (show n) ≡ n
unfolding show
value-show n = value_from-show_from (suc n) n [] (omega arith)

all_digits-show_from :
    (f n : ℕ) (acc : Text) → all is_digit acc ≡ true → all is_digit (show_from f n acc) ≡ true
unfolding show_from
all_digits-show_from zero n acc h = h
all_digits-show_from (suc f) n acc h =
    let digit : is_digit (48 + n % 10) ≡ true = ground arith in
    ground (arith, digit, all_digits-show_from f (n / 10) ((48 + n % 10) ∷ acc))

pub all_digits-show : (n : ℕ) → all is_digit (show n) ≡ true
unfolding show
all_digits-show n = all_digits-show_from (suc n) n [] refl

length-show_from : (f n : ℕ) (acc : Text) → length acc ≤ length (show_from f n acc)
unfolding show_from
length-show_from zero n acc = omega arith
length-show_from (suc f) n acc = ground (arith, length-show_from f (n / 10) ((48 + n % 10) ∷ acc))

pub show-ne-nil : (n : ℕ) → show n ≢ []
unfolding show show_from
show-ne-nil n e = ground (arith, length-show_from n (n / 10) ((48 + n % 10) ∷ []), ap length e)

pub show-injective : (m n : ℕ) → show m ≡ show n → m ≡ n
show-injective m n e = cc (value-show m, value-show n, ap value e)

-- The numerals of two and of four digits.
show_from_digit : (f n : ℕ) (acc : Text) → n < 10 → show_from (suc f) n acc ≡ (48 + n) ∷ acc
unfolding show_from
show_from_digit f n acc h = ground arith

show_from_more :
    (f n : ℕ) (acc : Text)
    → 10 ≤ n
    → show_from (suc f) n acc ≡ show_from f (n / 10) ((48 + n % 10) ∷ acc)
unfolding show_from
show_from_more f n acc h = ground arith

pub show_digit : (n : ℕ) → n < 10 → show n ≡ (48 + n) ∷ []
unfolding show
show_digit n h = show_from_digit n n [] h

pub show_two : (n : ℕ) → 10 ≤ n → n < 100 → show n ≡ (48 + n / 10) ∷ (48 + n % 10) ∷ []
unfolding show
show_two n h k =
    let fuel : suc n ≡ suc (suc (n - 1)) = omega arith in
    ap (λ f. show_from f n []) fuel
    ∙ show_from_more (suc (n - 1)) n [] h
    ∙ show_from_digit (n - 1) (n / 10) ((48 + n % 10) ∷ []) (omega arith)

pub show_four :
    (n : ℕ)
    → 1000 ≤ n
    → n < 10000
    → show n ≡ (48 + n / 1000) ∷ (48 + n / 100 % 10) ∷ (48 + n / 10 % 10) ∷ (48 + n % 10) ∷ []
unfolding show
show_four n h k =
    let fuel : suc n ≡ suc (suc (suc (suc (n - 3)))) = omega arith in
    let hundreds : n / 10 / 10 ≡ n / 100 = omega arith in
    let thousands : n / 10 / 10 / 10 ≡ n / 1000 = omega arith in
    let d = 48 + n % 10 in
    let c = 48 + n / 10 % 10 in
    let b = 48 + n / 10 / 10 % 10 in
    ap (λ f. show_from f n []) fuel
    ∙ show_from_more (suc (suc (suc (n - 3)))) n [] (omega arith)
    ∙ show_from_more (suc (suc (n - 3))) (n / 10) (d ∷ []) (omega arith)
    ∙ show_from_more (suc (n - 3)) (n / 10 / 10) (c ∷ d ∷ []) (omega arith)
    ∙ show_from_digit (n - 3) (n / 10 / 10 / 10) (b ∷ c ∷ d ∷ []) (omega arith)
    ∙ ap₂ (λ x y. (48 + x) ∷ (48 + y % 10) ∷ c ∷ d ∷ []) thousands hundreds
