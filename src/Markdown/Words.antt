-- ===== src/Markdown/Words.antt =====
-- The words of a heading, told from its text alone.
use veckomenyn.Base.{
  ℕ, ◌≡◌, refl, sym, ap, ◌∙◌, ◌⊎◌, inl, inr, true, false, not, Bool-cases, List, [], ◌∷◌, Text,
  is_space, is_empty, keep_if, cons_head, if◌then◌else◌, trim,
}
use veckomenyn.Markdown.{collapse, normalize, strip_matching_leading_h1}
use veckomenyn.Markdown.Stripped.{IsHeaded, strip_matching_leading_h1-cases}

abbrev filled : List Text → List Text
filled parts = keep_if (λ s. not (is_empty s)) parts

-- The pieces of a text between its white spaces, empty ones too.
abbrev pieces : Text → List Text
pieces [] = [] ∷ []
pieces (c ∷ s) = let rest = pieces s in if is_space c then [] ∷ rest else cons_head c rest

abbrev pub words_of : Text → List Text
words_of s = filled (pieces s)

-- The same first piece, and the same words behind it.
record IsAlike (ps qs : List Text) : Type 0 where
  first : Text
  ts : List Text
  us : List Text
  left : ps ≡ first ∷ ts
  right : qs ≡ first ∷ us
  behind : filled ts ≡ filled us

same_words :
    (first : Text) (ts us : List Text)
    → filled ts ≡ filled us
    → filled (first ∷ ts) ≡ filled (first ∷ us)
same_words [] ts us e = e
same_words (c ∷ s) ts us e = ap (λ ws. (c ∷ s) ∷ ws) e

IsAlike-words : (ps qs : List Text) → IsAlike ps qs → filled ps ≡ filled qs
IsAlike-words ps qs h = rw (h.left, h.right) (same_words h.first h.ts h.us h.behind)

IsAlike-cons_head :
    (c : ℕ) (ps qs : List Text) → IsAlike ps qs → IsAlike (cons_head c ps) (cons_head c qs)
IsAlike-cons_head c ps qs h = record {
  first = c ∷ h.first;
  ts = h.ts;
  us = h.us;
  left = ap (cons_head c) h.left;
  right = ap (cons_head c) h.right;
  behind = h.behind;
}

abbrev Collapses : Text → Type 0
Collapses s =
    IsAlike (pieces (collapse false s)) (pieces s) × (words_of (collapse true s) ≡ words_of s)

pieces-collapse : (s : Text) → Collapses s
unfolding collapse
pieces-collapse [] =
    (record { first = []; ts = []; us = []; left = refl; right = refl; behind = refl }, refl)
pieces-collapse (c ∷ s) = elim (Bool-cases (is_space c)) [
  | inl e ↦ rw e (
    record {
      first = [];
      ts = pieces (collapse true s);
      us = pieces s;
      left = refl;
      right = refl;
      behind = (pieces-collapse s).1;
    },
    (pieces-collapse s).1,
  )
  | inr e ↦
      let alike =
        IsAlike-cons_head c (pieces (collapse false s)) (pieces s) (pieces-collapse s).0 in
      rw (e, e)
        (
          alike,
          IsAlike-words (cons_head c (pieces (collapse false s))) (cons_head c (pieces s)) alike,
        )
]

words_of-normalize :
    (lower : Text → Text) (s : Text) → words_of (normalize lower s) ≡ words_of (lower (trim s))
unfolding normalize
words_of-normalize lower s =
    let t = lower (trim s) in
    IsAlike-words (pieces (collapse false t)) (pieces t) (pieces-collapse t).0

-- Nothing but the heading is stripped: the text that is shown is the source itself, or the source is
-- white space, `#`, white space, a heading of one line, newlines, and then exactly the text that is
-- shown; and this heading and the one that is expected, both trimmed and in lower case, have the same
-- words.
pub strip_matching_leading_h1-words_of :
    (lower : Text → Text) (source expected : Text)
    → (strip_matching_leading_h1 lower source expected ≡ source)
      ⊎ ((heading : Text) × IsHeaded source heading
            (strip_matching_leading_h1 lower source expected)
          × (words_of (lower (trim heading)) ≡ words_of (lower (trim expected))))
strip_matching_leading_h1-words_of lower source expected =
    elim (strip_matching_leading_h1-cases lower source expected) [
      | inl same ↦ inl same
      | inr (heading, headed, e) ↦ inr (
        heading,
        headed,
        sym (words_of-normalize lower heading) ∙ ap words_of e ∙ words_of-normalize lower expected,
      )
    ]
