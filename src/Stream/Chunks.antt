-- ===== src/Stream/Chunks.antt =====
-- What the caller of `streamChat` gets does not depend on how the network cuts the text.
use veckomenyn.Base.{
  ◌≡◌, refl, ap, sym, ◌∙◌, Option, none, List, [], ◌∷◌, ◌++◌, Text, append_assoc, append-nil,
}
use veckomenyn.Stream.{Delivery, Reader, frames_of, deliver_all, on_chunk, read_all, start}
use veckomenyn.Stream.Frames.{resume, frames_of_append, cut-frames_of, cut-nil, frames_of-none}
use veckomenyn.Stream.{cut}

abbrev pub concat : List Text → Text
concat [] = []
concat (s ∷ chunks) = s ++ concat chunks

module _ {D : Type 0} (parse_json : Text → Option D) (throws : Delivery D → Option Text) where
  pub deliver_all-append :
      (fs gs : List Text)
      → deliver_all parse_json throws (fs ++ gs)
        ≡ deliver_all parse_json throws fs ++ deliver_all parse_json throws gs
  deliver_all-append [] gs = refl
  deliver_all-append (f ∷ fs) gs = simp (deliver_all-append fs gs, append_assoc)

  on_chunk_twice :
      (r : Reader D) (s t : Text)
      → on_chunk parse_json throws (on_chunk parse_json throws r s) t
        ≡ on_chunk parse_json throws r (s ++ t)
  unfolding on_chunk
  on_chunk_twice r s t =
      let whole : frames_of (r.buffer ++ (s ++ t))
          ≡ resume (frames_of (r.buffer ++ s)) (frames_of ((frames_of (r.buffer ++ s)).1 ++ t)) =
        rw (← append_assoc) (frames_of_append (r.buffer ++ s) t) in
      rw whole (simp (deliver_all-append, append_assoc))

  on_chunk-nil : (r : Reader D) → cut r.buffer ≡ none → on_chunk parse_json throws r [] ≡ r
  unfolding on_chunk
  on_chunk-nil r h = rw (append-nil, frames_of-none r.buffer h, append-nil)

  cut-on_chunk : (r : Reader D) (s : Text) → cut (on_chunk parse_json throws r s).buffer ≡ none
  unfolding on_chunk
  cut-on_chunk r s = cut-frames_of (r.buffer ++ s)

  pub read_all-concat :
      (r : Reader D) (chunks : List Text)
      → cut r.buffer ≡ none
      → read_all parse_json throws r chunks ≡ on_chunk parse_json throws r (concat chunks)
  read_all-concat r [] h = sym (on_chunk-nil r h)
  read_all-concat r (s ∷ chunks) h =
      read_all-concat (on_chunk parse_json throws r s) chunks (cut-on_chunk r s)
      ∙ on_chunk_twice r s (concat chunks)

  -- Two ways to cut one text into chunks hand the same calls to the handlers, in the same order, and
  -- leave the same unfinished text; that text ends no frame.
  pub read_all_chunking :
      (chunks chunks' : List Text)
      → concat chunks ≡ concat chunks'
      → (read_all parse_json throws start chunks ≡ read_all parse_json throws start chunks')
        × (cut (read_all parse_json throws start chunks).buffer ≡ none)
  read_all_chunking chunks chunks' same =
      let one = read_all-concat start chunks cut-nil in
      let other = read_all-concat start chunks' cut-nil in
      (
        one ∙ ap (on_chunk parse_json throws start) same ∙ sym other,
        rw one (cut-on_chunk start (concat chunks)),
      )
