-- ===== src/I18n/Fill.antt =====
-- How the texts are filled in.
use veckomenyn.Base.{
  ℕ, ◌≡◌, ◌≢◌, refl, ap, sym, ◌∙◌, true, false, not, ◌&&◌, ◌==◌, Text, List, [], ◌∷◌, ◌++◌,
  is_empty, arith, Bool-cases, inl, inr, ==_iff, Lacks, all, All, append_assoc, append-nil,
}
use veckomenyn.Base.Assoc.{Assoc, lookup}
use veckomenyn.I18n.{is_word, value_of, Mode, outside, inside, pending, step, fill_from, fill}

step-nil :
    (mode : Mode) (c : ℕ) (rest : Text)
    → (step [] mode c).0 ++ (pending (step [] mode c).1 ++ rest) ≡ pending mode ++ (c ∷ rest)
unfolding lookup
step-nil outside c rest = elim (Bool-cases (c == 123)) [
  | inl brace ↦ rw brace (ap (λ d. d ∷ rest) (sym ((==_iff c 123).0 brace)))
  | inr other ↦ rw other
]
step-nil (inside name) c rest = elim (Bool-cases (is_word c)) [
  | inl letter ↦ rw letter (simp append_assoc)
  | inr ends ↦ elim (Bool-cases (c == 125 && not (is_empty name))) [
    | inl closing ↦
        let is_close : 125 ≡ c = ground arith in
        rw (ends, closing) (simp append_assoc (ap (λ d. 123 ∷ name ++ (d ∷ rest)) is_close))
    | inr other ↦ elim (Bool-cases (c == 123)) [
      | inl brace ↦
          rw (ends, other, brace)
            (ap (λ d. 123 ∷ name ++ (d ∷ rest)) (sym ((==_iff c 123).0 brace)))
      | inr copied ↦ rw (ends, other, copied) (simp append_assoc)
    ]
  ]
]

fill_from-nil : (mode : Mode) (s : Text) → fill_from [] mode s ≡ pending mode ++ s
unfolding fill_from
fill_from-nil mode [] = sym (append-nil (pending mode))
fill_from-nil mode (c ∷ s) = rw (fill_from-nil (step [] mode c).1 s) (step-nil mode c s)

-- Where no parameter has a placeholder's name, a text with any braces, matched or not, stays as it is.
pub fill-nil : (s : Text) → fill [] s ≡ s
unfolding fill
fill-nil s = fill_from-nil outside s

-- A piece of a text: plain, or a placeholder.
pub data Piece : Type 0 where
  plain placeholder : Text → Piece

-- How the pieces are written in the dictionaries, and what they read as.
abbrev pub source : List Piece → Text
source [] = []
source (plain s ∷ ps) = s ++ source ps
source (placeholder name ∷ ps) = 123 ∷ name ++ (125 ∷ source ps)

abbrev pub reading : Assoc Text → List Piece → Text
reading params [] = []
reading params (plain s ∷ ps) = s ++ reading params ps
reading params (placeholder name ∷ ps) = value_of params name ++ reading params ps

abbrev pub IsPiece : Piece → Type 0
IsPiece (plain s) = Lacks 123 s
IsPiece (placeholder name) = (all is_word name ≡ true) × (name ≢ [])

module _ (params : Assoc Text) where
  fill_from-plain :
      (s rest : Text)
      → Lacks 123 s
      → fill_from params outside (s ++ rest) ≡ s ++ fill_from params outside rest
  unfolding fill_from
  fill_from-plain [] rest h = refl
  fill_from-plain (c ∷ s) rest h =
      let other : (c == 123) ≡ false = ground (arith, h.0) in
      rw other (ap (λ t. c ∷ t) (fill_from-plain s rest h.1))

  fill_from-name :
      (seen name rest : Text)
      → all is_word name ≡ true
      → fill_from params (inside seen) (name ++ rest)
        ≡ fill_from params (inside (seen ++ name)) rest
  unfolding fill_from
  fill_from-name seen [] rest h = rw append-nil
  fill_from-name seen (c ∷ name) rest h =
      let letter : is_word c ≡ true = ground arith in
      rw letter (fill_from-name (seen ++ c ∷ []) name rest (ground arith) ∙ rw append_assoc)

  fill_from-close :
      (name rest : Text)
      → name ≢ []
      → fill_from params (inside name) (125 ∷ rest)
        ≡ value_of params name ++ fill_from params outside rest
  unfolding fill_from
  fill_from-close [] rest h = absurd (h refl)
  fill_from-close (c ∷ name) rest h = refl

  fill_from-brace :
      (rest : Text) → fill_from params outside (123 ∷ rest) ≡ fill_from params (inside []) rest
  unfolding fill_from
  fill_from-brace rest = refl

  fill_from-source :
      (ps : List Piece) → All IsPiece ps → fill_from params outside (source ps) ≡ reading params ps
  fill_from-source [] h = unfold fill_from in refl
  fill_from-source (plain s ∷ ps) h =
      fill_from-plain s (source ps) h.0 ∙ ap (λ t. s ++ t) (fill_from-source ps h.1)
  fill_from-source (placeholder name ∷ ps) h =
      fill_from-brace (name ++ (125 ∷ source ps))
      ∙ fill_from-name [] name (125 ∷ source ps) h.0.0
      ∙ fill_from-close name (source ps) h.0.1
      ∙ ap (λ t. value_of params name ++ t) (fill_from-source ps h.1)

  -- A text of plain pieces without `{` and of placeholders reads as its plain pieces and, for each
  -- placeholder, the parameter of that name; one without a parameter stays as it is written.
  pub fill-source : (ps : List Piece) → All IsPiece ps → fill params (source ps) ≡ reading params ps
  unfolding fill
  fill-source ps h = fill_from-source ps h
