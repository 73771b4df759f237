-- ===== src/Stream/Frames.antt =====
-- The frames of a buffer do not depend on how the text arrives.
use veckomenyn.Base.{
  ℕ, zero, suc, ◌+◌, ◌≤◌, ◌≡◌, refl, ap, sym, ◌∙◌, none, some, List, [], ◌∷◌, ◌++◌, Text, arith,
  length, Option-cases, inl, inr, length-append,
}
use veckomenyn.Stream.{cut, take_frames, frames_of}

cut_append :
    (s t frame rest : Text) → cut s ≡ some (frame, rest) → cut (s ++ t) ≡ some (frame, rest ++ t)
unfolding cut
cut_append [] t frame rest e = cc
cut_append (c ∷ []) t frame rest e = cc
cut_append (c ∷ d ∷ s) t frame rest e = elim (Option-cases (cut (d ∷ s))) [
  | inl none_left ↦ ground arith
  | inr ((frame', rest'), found) ↦ ground (arith, cut_append (d ∷ s) t frame' rest' found)
]

length-cut :
    (s frame rest : Text) → cut s ≡ some (frame, rest) → length frame + 2 + length rest ≡ length s
unfolding cut
length-cut [] frame rest e = cc
length-cut (c ∷ []) frame rest e = cc
length-cut (c ∷ d ∷ s) frame rest e = elim (Option-cases (cut (d ∷ s))) [
  | inl none_left ↦ ground arith
  | inr ((frame', rest'), found) ↦ ground (arith, length-cut (d ∷ s) frame' rest' found)
]

take_frames-none : (f : ℕ) (s : Text) → cut s ≡ none → take_frames f s ≡ ([], s)
unfolding take_frames
take_frames-none zero s e = refl
take_frames-none (suc f) s e = rw (e, take_frames)

pub take_frames-some :
    (f : ℕ) (s frame rest : Text)
    → cut s ≡ some (frame, rest)
    → take_frames (suc f) s ≡ (frame ∷ (take_frames f rest).0, (take_frames f rest).1)
unfolding take_frames
take_frames-some f s frame rest e = rw (e, take_frames)

length-take_frames : (f : ℕ) (s : Text) → length (take_frames f s).1 ≤ length s
length-take_frames zero s = unfold take_frames in omega arith
length-take_frames (suc f) s = elim (Option-cases (cut s)) [
  | inl e ↦ rw (take_frames-none (suc f) s e) (omega arith)
  | inr ((frame, rest), e) ↦
      rw (take_frames-some f s frame rest e)
        (omega (arith, length-take_frames f rest, length-cut s frame rest e))
]

pub cut-nil : cut [] ≡ none
unfolding cut
cut-nil = refl

-- More fuel than the length gives the same frames.
pub take_frames_enough :
    (f g : ℕ) (s : Text) → length s ≤ f → length s ≤ g → take_frames f s ≡ take_frames g s
take_frames_enough zero g [] h k =
    take_frames-none zero [] cut-nil ∙ sym (take_frames-none g [] cut-nil)
take_frames_enough zero g (c ∷ s) h k = absurd (omega arith)
take_frames_enough (suc f) zero [] h k =
    take_frames-none (suc f) [] cut-nil ∙ sym (take_frames-none zero [] cut-nil)
take_frames_enough (suc f) zero (c ∷ s) h k = absurd (omega arith)
take_frames_enough (suc f) (suc g) s h k = elim (Option-cases (cut s)) [
  | inl e ↦ take_frames-none (suc f) s e ∙ sym (take_frames-none (suc g) s e)
  | inr ((frame, rest), e) ↦
      let less = length-cut s frame rest e in
      let same = take_frames_enough f g rest (omega (arith, less)) (omega (arith, less)) in
      rw (take_frames-some f s frame rest e, take_frames-some g s frame rest e, same)
]

-- What is left has no frame in it.
pub cut-take_frames : (f : ℕ) (s : Text) → length s ≤ f → cut (take_frames f s).1 ≡ none
cut-take_frames zero [] h = rw (take_frames-none zero [] cut-nil) cut-nil
cut-take_frames zero (c ∷ s) h = absurd (omega arith)
cut-take_frames (suc f) s h = elim (Option-cases (cut s)) [
  | inl e ↦ rw (take_frames-none (suc f) s e) e
  | inr ((frame, rest), e) ↦
      rw (take_frames-some f s frame rest e)
        (cut-take_frames f rest (omega (arith, length-cut s frame rest e)))
]

-- The frames of `s ++ t`, from those of `s`.
abbrev pub resume : List Text × Text → List Text × Text → List Text × Text
resume first later = (first.0 ++ later.0, later.1)

-- The frames of a text that arrives in two parts.
take_frames_append :
    (f g : ℕ) (s t : Text)
    → length s ≤ f
    → length s + length t ≤ g
    → take_frames g (s ++ t) ≡ resume (take_frames f s) (take_frames g ((take_frames f s).1 ++ t))
take_frames_append zero g [] t h k = rw (take_frames-none zero [] cut-nil)
take_frames_append zero g (c ∷ s) t h k = absurd (omega arith)
take_frames_append (suc f) zero [] t h k = rw (take_frames-none (suc f) [] cut-nil)
take_frames_append (suc f) zero (c ∷ s) t h k = absurd (omega arith)
take_frames_append (suc f) (suc g) s t h k = elim (Option-cases (cut s)) [
  | inl e ↦ rw (take_frames-none (suc f) s e)
  | inr ((frame, rest), e) ↦
      let less = length-cut s frame rest e in
      let left = (take_frames f rest).1 ++ t in
      let short = length-take_frames f rest in
      let ih = take_frames_append f g rest t (omega (arith, less)) (omega (arith, less)) in
      let fuel =
        take_frames_enough (suc g) g left
          (omega (arith, less, short, length-append (take_frames f rest).1 t))
          (omega (arith, less, short, length-append (take_frames f rest).1 t)) in
      take_frames-some g (s ++ t) frame (rest ++ t) (cut_append s t frame rest e)
      ∙ ap (λ (p : List Text × Text). (frame ∷ p.0, p.1)) ih
      ∙ rw (take_frames-some f s frame rest e, fuel)
]

-- The frames of a buffer are those of its first part, then those of what is left with the rest.
pub frames_of_append :
    (s t : Text) → frames_of (s ++ t) ≡ resume (frames_of s) (frames_of ((frames_of s).1 ++ t))
unfolding frames_of
frames_of_append s t =
    let left = (take_frames (length s) s).1 ++ t in
    let all_of = length-append s t in
    let some_of = length-append (take_frames (length s) s).1 t in
    let short = length-take_frames (length s) s in
    take_frames_append (length s) (length (s ++ t)) s t (omega arith) (omega (arith, all_of))
    ∙ ap (resume (take_frames (length s) s)) (
        take_frames_enough (length (s ++ t)) (length left) left
          (omega (arith, all_of, some_of, short)) (omega arith))

-- Nothing that is left in the buffer ends a frame.
pub cut-frames_of : (s : Text) → cut (frames_of s).1 ≡ none
unfolding frames_of
cut-frames_of s = cut-take_frames (length s) s (omega arith)

pub frames_of_cons :
    (s frame rest : Text)
    → cut s ≡ some (frame, rest)
    → frames_of s ≡ (frame ∷ (frames_of rest).0, (frames_of rest).1)
unfolding frames_of
frames_of_cons s frame rest e =
    let less = length-cut s frame rest e in
    take_frames_enough (length s) (suc (length s)) s (omega arith) (omega arith)
    ∙ take_frames-some (length s) s frame rest e
    ∙ ap (λ (p : List Text × Text). (frame ∷ p.0, p.1))
        (take_frames_enough (length s) (length rest) rest (omega (arith, less)) (omega arith))

pub frames_of-none : (s : Text) → cut s ≡ none → frames_of s ≡ ([], s)
unfolding frames_of
frames_of-none s e = take_frames-none (length s) s e
