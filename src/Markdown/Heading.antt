-- ===== src/Markdown/Heading.antt =====
-- A heading that repeats the name is stripped.
use veckomenyn.Base.{
  ℕ, ◌≡◌, refl, ap, true, false, not, ◌&&◌, ◌==◌, none, some, [], ◌∷◌, ◌++◌, Text, ===_iff,
  is_space, all, arith,
}
use veckomenyn.Markdown.{
  newline, line_of, rest_of, skip_newlines, after_hash, leading_heading, normalize,
  strip_matching_leading_h1,
}

line_of-append :
    (name body : Text)
    → all (λ c. not (c == newline)) name ≡ true
    → line_of (name ++ newline ∷ body) ≡ name
unfolding line_of
line_of-append [] body h = refl
line_of-append (c ∷ name) body h =
    rw (head h) (ap (λ t. c ∷ t) (line_of-append name body (ground (arith, h))))
  where
    head :
        (not (c == newline) && all (λ c. not (c == newline)) name) ≡ true → (c == newline) ≡ false
    head h = ground (arith, h)

rest_of-append :
    (name body : Text)
    → all (λ c. not (c == newline)) name ≡ true
    → rest_of (name ++ newline ∷ body) ≡ newline ∷ body
unfolding rest_of
rest_of-append [] body h = refl
rest_of-append (c ∷ name) body h = ground (arith, h, rest_of-append name body)

after_hash-none : (c : ℕ) (s : Text) → is_space c ≡ false → after_hash (c ∷ s) ≡ none
unfolding after_hash
after_hash-none c s h = rw h refl

leading_heading-name :
    (c : ℕ) (name body : Text)
    → is_space c ≡ false
    → all (λ c. not (c == newline)) (c ∷ name) ≡ true
    → leading_heading (35 ∷ 32 ∷ (c ∷ name) ++ newline ∷ body) ≡ some (c ∷ name, skip_newlines body)
unfolding leading_heading after_hash skip_newlines
leading_heading-name c name body h k =
    rw (after_hash-none c (name ++ newline ∷ body) h)
      (rw (line_of-append (c ∷ name) body k) (rw (rest_of-append (c ∷ name) body k) refl))

-- The heading that repeats a name is stripped with the newlines behind it, and what is left is the body. The
-- name is one line and begins with no white space.
pub strip_matching_leading_h1-name :
    (lower : Text → Text) (c : ℕ) (name body : Text)
    → is_space c ≡ false
    → all (λ c. not (c == newline)) (c ∷ name) ≡ true
    → strip_matching_leading_h1 lower (35 ∷ 32 ∷ (c ∷ name) ++ newline ∷ body) (c ∷ name)
      ≡ skip_newlines body
unfolding strip_matching_leading_h1
strip_matching_leading_h1-name lower c name body h k =
    let same = (===_iff (normalize lower (c ∷ name)) (normalize lower (c ∷ name))).1 refl in
    rw (leading_heading-name c name body h k) (rw same refl)
