-- ===== src/Markdown/Stripped.antt =====
-- What is stripped of a text, and what is not.
use veckomenyn.Base.{
  ℕ, ◌≡◌, ◌≢◌, refl, sym, ap, ◌∙◌, ◌⊎◌, inl, inr, Bool, true, false, not, ◌&&◌, ◌==◌, Option, none,
  some, [], ◌∷◌, ◌++◌, Text, ◌===◌, ===_iff, is_space, is_empty, all, Bool-cases, subst,
  if◌then◌else◌, arith,
}
use veckomenyn.Markdown.{
  newline, line_of, rest_of, skip_newlines, heading_at, or_else, after_hash, leading_heading,
  normalize, strip_if, strip_matching_leading_h1,
}

abbrev is_newline : ℕ → Bool
is_newline c = c == newline

-- A text that is white space, a heading on one line, newlines, and the rest.
pub record IsBehind (source heading rest : Text) : Type 0 where
  pub between : Text
  pub newlines : Text
  pub shape : source ≡ between ++ (heading ++ (newlines ++ rest))
  pub spaces : all is_space between ≡ true
  pub one_line : all (λ c. not (is_newline c)) heading ≡ true
  pub broken : (all is_newline newlines ≡ true) × (newlines ≢ [])

line_rest : (s : Text) → s ≡ line_of s ++ rest_of s
unfolding line_of rest_of
line_rest [] = refl
line_rest (c ∷ s) = elim (Bool-cases (c == newline)) [
  | inl e ↦ rw e refl
  | inr e ↦ rw e (ap (λ t. c ∷ t) (line_rest s))
]

line_of-all : (s : Text) → all (λ c. not (is_newline c)) (line_of s) ≡ true
unfolding line_of
line_of-all [] = refl
line_of-all (c ∷ s) = ground (arith, line_of-all s)

-- The newlines that a text begins with.
newlines_of : Text → Text
newlines_of [] = []
newlines_of (c ∷ s) = if c == newline then c ∷ newlines_of s else []

newlines_skip : (s : Text) → newlines_of s ++ skip_newlines s ≡ s
unfolding newlines_of skip_newlines
newlines_skip [] = refl
newlines_skip (c ∷ s) = elim (Bool-cases (c == newline)) [
  | inl e ↦ rw e (ap (λ t. c ∷ t) (newlines_skip s))
  | inr e ↦ rw e refl
]

newlines_of-all : (s : Text) → all is_newline (newlines_of s) ≡ true
unfolding newlines_of
newlines_of-all [] = refl
newlines_of-all (c ∷ s) = ground (arith, newlines_of-all s)

absurd_empty : {B : Type 0} (s : Text) → s ≡ [] → is_empty s ≡ false → B
absurd_empty [] e h = cc
absurd_empty (c ∷ s) e h = cc

-- What is left of a line begins with a newline.
newlines_of-rest_of : (s : Text) → newlines_of (rest_of s) ≡ [] → rest_of s ≡ []
unfolding newlines_of rest_of
newlines_of-rest_of [] e = refl
newlines_of-rest_of (c ∷ s) e = elim (Bool-cases (c == newline)) [
  | inl h ↦ ground (arith, h, e)
  | inr h ↦ ground (arith, h, e, newlines_of-rest_of s)
]

abbrev BehindIf : Text → Option (Text × Text) → Type 0
BehindIf s none = Unit
BehindIf s (some (h, r)) = IsBehind s h r

heading_at-BehindIf : (s : Text) → BehindIf s (heading_at s)
heading_at-BehindIf s =
    elim (Bool-cases (not (is_empty (line_of s)) && not (is_empty (rest_of s)))) [
      | inl e ↦
          let filled : is_empty (rest_of s) ≡ false = ground arith in
          rw e (record {
            between = [];
            newlines = newlines_of (rest_of s);
            shape = line_rest s ∙ ap (λ t. line_of s ++ t) (sym (newlines_skip (rest_of s)));
            spaces = refl;
            one_line = line_of-all s;
            broken = (
              newlines_of-all (rest_of s),
              λ none. absurd_empty (rest_of s) (newlines_of-rest_of s none) filled,
            );
          })
      | inr e ↦ rw e tt
    ]

BehindIf-cons :
    (c : ℕ) (s : Text) (o : Option (Text × Text))
    → is_space c ≡ true
    → BehindIf s o
    → BehindIf (c ∷ s) o
BehindIf-cons c s none e h = tt
BehindIf-cons c s (some (heading, rest)) e h = record {
  between = c ∷ h.between;
  newlines = h.newlines;
  shape = ap (λ t. c ∷ t) h.shape;
  spaces = ground (arith, e, h.spaces);
  one_line = h.one_line;
  broken = h.broken;
}

BehindIf-or_else :
    (s : Text) (o p : Option (Text × Text)) → BehindIf s o → BehindIf s p → BehindIf s (or_else o p)
BehindIf-or_else s none p h k = k
BehindIf-or_else s (some m) p h k = h

after_hash-BehindIf : (s : Text) → BehindIf s (after_hash s)
unfolding after_hash
after_hash-BehindIf [] = tt
after_hash-BehindIf (c ∷ s) = elim (Bool-cases (is_space c)) [
  | inl e ↦ rw e (
      BehindIf-cons c s (or_else (after_hash s) (heading_at s)) e (
        BehindIf-or_else s (after_hash s) (heading_at s) (after_hash-BehindIf s)
          (heading_at-BehindIf s)))
  | inr e ↦ rw e tt
]

-- A text that begins with white space, a `#` and a heading behind it.
pub record IsHeaded (source heading rest : Text) : Type 0 where
  pub before : Text
  pub after : Text
  pub shape : source ≡ before ++ 35 ∷ after
  pub spaces : all is_space before ≡ true
  pub behind : IsBehind after heading rest

abbrev HeadedIf : Text → Option (Text × Text) → Type 0
HeadedIf s none = Unit
HeadedIf s (some (h, r)) = IsHeaded s h r

HeadedIf-hash : (s : Text) (o : Option (Text × Text)) → BehindIf s o → HeadedIf (35 ∷ s) o
HeadedIf-hash s none h = tt
HeadedIf-hash s (some (heading, rest)) h = record {
  before = [];
  after = s;
  shape = refl;
  spaces = refl;
  behind = h;
}

HeadedIf-cons :
    (c : ℕ) (s : Text) (o : Option (Text × Text))
    → is_space c ≡ true
    → HeadedIf s o
    → HeadedIf (c ∷ s) o
HeadedIf-cons c s none e h = tt
HeadedIf-cons c s (some (heading, rest)) e h = record {
  before = c ∷ h.before;
  after = h.after;
  shape = ap (λ t. c ∷ t) h.shape;
  spaces = ground (arith, e, h.spaces);
  behind = h.behind;
}

leading_heading-HeadedIf : (s : Text) → HeadedIf s (leading_heading s)
unfolding leading_heading
leading_heading-HeadedIf [] = tt
leading_heading-HeadedIf (c ∷ s) = elim (Bool-cases (is_space c)) [
  | inl e ↦ rw e (HeadedIf-cons c s (leading_heading s) e (leading_heading-HeadedIf s))
  | inr e ↦ elim (Bool-cases (c == 35)) [
    | inl h ↦
        let hash : 35 ≡ c = ground (arith, h) in
        rw e (
          rw h (
            subst (λ d. HeadedIf (d ∷ s) (after_hash s)) hash
              (HeadedIf-hash s (after_hash s) (after_hash-BehindIf s))))
    | inr h ↦ rw e (rw h tt)
  ]
]

strip_if-cases :
    (lower : Text → Text) (source expected : Text) (o : Option (Text × Text))
    → HeadedIf source o
    → (strip_if lower source expected o ≡ source)
      ⊎ ((heading : Text) × IsHeaded source heading (strip_if lower source expected o)
          × (normalize lower heading ≡ normalize lower expected))
strip_if-cases lower source expected none h = inl refl
strip_if-cases lower source expected (some (heading, rest)) h =
    elim (Bool-cases (normalize lower heading === normalize lower expected)) [
      | inl e ↦
          rw e
            (inr (heading, h, (===_iff (normalize lower heading) (normalize lower expected)).0 e))
      | inr e ↦ rw e (inl refl)
    ]

-- Nothing but the heading is stripped: the text that is shown is the source itself, or the source is white
-- space, `#`, white space, one line that reads like the expected heading but for case and white space,
-- newlines, and then exactly the text that is shown.
pub strip_matching_leading_h1-cases :
    (lower : Text → Text) (source expected : Text)
    → (strip_matching_leading_h1 lower source expected ≡ source)
      ⊎ ((heading : Text) × IsHeaded source heading
            (strip_matching_leading_h1 lower source expected)
          × (normalize lower heading ≡ normalize lower expected))
unfolding strip_matching_leading_h1
strip_matching_leading_h1-cases lower source expected =
    strip_if-cases lower source expected (leading_heading source) (leading_heading-HeadedIf source)
