-- ===== src/Base/Numbers.antt =====
-- `Number(s)` of a run of decimal digits: the nearest double, ties to even. Up to 2^53 it is exact.
-- From 2^1024 on JavaScript has Infinity, which these numbers do not have.
use Prim.Native.Nat.{ℕ, zero, suc, ◌+◌, ◌*◌, ◌/◌, ◌%◌, ◌^◌, ◌≤◌}
use mathlib.Core.Path.{◌≡◌, refl}
use native.Mathlib.Omega.{arith}
use veckomenyn.Base.Tests.{leb, ltb, ◌==◌, if◌then◌else◌}
use veckomenyn.Base.Strings.{Text}
use veckomenyn.Base.Digits.{value}

abbrev pub max_exact : ℕ
max_exact = 2 ^ 53

-- How often a number is halved until it has 53 bits; its own value is fuel enough.
excess : ℕ → ℕ → ℕ
excess zero n = 0
excess (suc f) n = let more = suc (excess f (n / 2)) in if ltb n max_exact then 0 else more

-- `n / step`, rounded to the nearest, ties to even, and scaled back
round_to : ℕ → ℕ → ℕ
round_to step n =
    let up = if ltb step (2 * (n % step)) then 1 else 0 in
    let tie = if 2 * (n % step) == step then (n / step) % 2 else 0 in (n / step + up + tie) * step

unfoldable pub round_double : ℕ → ℕ
unfolding excess round_to
round_double n = if leb n max_exact then n else round_to (2 ^ excess n n) n

unfoldable pub number : Text → ℕ
unfolding round_double
number s = round_double (value s)

pub round_double_exact : (n : ℕ) → n ≤ max_exact → round_double n ≡ n
unfolding round_double
round_double_exact n h = ground arith

round_double_odd : round_double (2 ^ 53 + 1) ≡ 2 ^ 53
unfolding round_double
round_double_odd = refl
