-- ===== src/Base/Split.antt =====
-- `s.split(c)` at one character, and `parts.join(sep)`.
use veckomenyn.Base.Tests.{◌==◌, if◌then◌else◌}
use veckomenyn.Base.Lists.{All}
use veckomenyn.Base.Strings.{Text}
use Prim.Native.Nat.{ℕ}
use mathlib.Core.Path.{◌≡◌, refl}
use mathlib.Core.Logic.{◌≢◌}
use mathlib.Core.List.{List, [], ◌∷◌, ◌++◌}
use native.Mathlib.Omega.{arith}

abbrev pub cons_head : ℕ → List Text → List Text
cons_head c [] = (c ∷ []) ∷ []
cons_head c (s ∷ parts) = (c ∷ s) ∷ parts

unfoldable pub split : ℕ → Text → List Text
split sep [] = [] ∷ []
split sep (c ∷ s) = if c == sep then [] ∷ split sep s else cons_head c (split sep s)

unfoldable pub join : Text → List Text → Text
join sep [] = []
join sep (s ∷ []) = s
join sep (s ∷ t ∷ parts) = s ++ (sep ++ join sep (t ∷ parts))

abbrev pub Lacks : ℕ → Text → Type 0
Lacks sep = All (λ c. c ≢ sep)

pub split-single : (sep : ℕ) (s : Text) → Lacks sep s → split sep s ≡ s ∷ []
unfolding split
split-single sep [] h = refl
split-single sep (c ∷ s) h = ground (arith, split-single sep s h.1)

-- A text without the separator, then the separator: the first part.
pub split-append :
    (sep : ℕ) (s t : Text) → Lacks sep s → split sep (s ++ (sep ∷ t)) ≡ s ∷ split sep t
unfolding split
split-append sep [] t h = ground arith
split-append sep (c ∷ s) t h = ground (arith, split-append sep s t h.1)

pub split-join :
    (sep : ℕ) (s : Text) (parts : List Text)
    → All (Lacks sep) (s ∷ parts)
    → split sep (join (sep ∷ []) (s ∷ parts)) ≡ s ∷ parts
unfolding join
split-join sep s [] h = split-single sep s h.0
split-join sep s (t ∷ parts) h =
    ground (arith, split-append sep s (join (sep ∷ []) (t ∷ parts)) h.0, split-join sep t parts h.1)
