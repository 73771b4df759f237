-- ===== src/Markdown.antt =====
-- web/src/components/Markdown.tsx: `stripMatchingLeadingH1`, and the level of a shifted heading. `lower` is
-- `toLowerCase`.
pub mod Stripped
pub mod Words
pub mod Heading
mod Tests
use veckomenyn.Base.{
  ℕ, zero, suc, ◌+◌, ◌≤◌, min, Bool, true, false, not, ◌&&◌, ◌==◌, Option, none, some, List, [],
  ◌∷◌, ◌++◌, Text, ◌===◌, is_space, is_empty, trim, if◌then◌else◌,
}

abbrev pub newline : ℕ
newline = 10

-- `[^\n]+` takes the line, and `\n+` all newlines behind it.
unfoldable pub line_of : Text → Text
line_of [] = []
line_of (c ∷ s) = if c == newline then [] else c ∷ line_of s

unfoldable pub rest_of : Text → Text
rest_of [] = []
rest_of (c ∷ s) = if c == newline then c ∷ s else rest_of s

unfoldable pub skip_newlines : Text → Text
skip_newlines [] = []
skip_newlines (c ∷ s) = if c == newline then skip_newlines s else c ∷ s

-- `([^\n]+)\n+` at one place: the group, and what is behind the match.
abbrev pub heading_at : Text → Option (Text × Text)
heading_at s =
    if not (is_empty (line_of s)) && not (is_empty (rest_of s))
    then some (line_of s, skip_newlines (rest_of s))
    else none

abbrev pub or_else : Option (Text × Text) → Option (Text × Text) → Option (Text × Text)
or_else none o = o
or_else (some m) o = some m

-- `\s+([^\n]+)\n+`: the white space is taken as long as there is some, and given back from its end where the
-- rest does not match.
unfoldable pub after_hash : Text → Option (Text × Text)
after_hash [] = none
after_hash (c ∷ s) = if is_space c then or_else (after_hash s) (heading_at s) else none

-- /^\s*#\s+([^\n]+)\n+/
unfoldable pub leading_heading : Text → Option (Text × Text)
leading_heading [] = none
leading_heading (c ∷ s) =
    if is_space c then leading_heading s else if c == 35 then after_hash s else none

-- `replace(/\s+/g, " ")`; `in_run` is behind a white space.
unfoldable pub collapse : Bool → Text → Text
collapse in_run [] = []
collapse in_run (c ∷ s) =
    if is_space c
    then (if in_run then collapse true s else 32 ∷ collapse true s)
    else c ∷ collapse false s

-- `headingShift`: the level at which a heading is shown
abbrev pub shifted : ℕ → ℕ → ℕ
shifted shift level = min 6 (level + shift)

module _ (lower : Text → Text) where
  unfoldable pub normalize : Text → Text
  unfolding collapse
  normalize s = collapse false (lower (trim s))

  abbrev pub strip_if : Text → Text → Option (Text × Text) → Text
  strip_if source expected none = source
  strip_if source expected (some (heading, rest)) =
      if normalize heading === normalize expected then rest else source

  -- `stripMatchingLeadingH1`
  unfoldable pub strip_matching_leading_h1 : Text → Text → Text
  unfolding leading_heading
  strip_matching_leading_h1 source expected = strip_if source expected (leading_heading source)
