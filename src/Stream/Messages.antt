-- ===== src/Stream/Messages.antt =====
-- What the server writes, the client reads.
use veckomenyn.Base.{
  ◌≡◌, refl, sym, subst, ap, ◌∙◌, true, false, Option, none, some, Bool-cases, inl, inr, ◌===◌,
  ===_iff, if◌then◌else◌, List, [], ◌∷◌, ◌++◌, Text, text, append_assoc, append-nil, arith, All,
  Lacks, trim, split, split-append, split-single, join,
}
use veckomenyn.Stream.{
  Delivery, on_meta, on_event, on_end, on_error, attempt, read_line, cut, frames_of, deliver,
  deliver_all, parse_frame, on_chunk, read_all, start, send_sse,
}
use veckomenyn.Stream.Frames.{cut-nil, frames_of-none, frames_of_cons}
use veckomenyn.Stream.Chunks.{concat, read_all-concat}

cut-append :
    (s t frame rest : Text)
    → Lacks 10 s
    → cut t ≡ some (frame, rest)
    → cut (s ++ t) ≡ some (s ++ frame, rest)
unfolding cut
cut-append [] t frame rest h e = e
cut-append (c ∷ []) [] frame rest h e = cc
cut-append (c ∷ []) (d ∷ t) frame rest h e = ground (arith, h.0)
cut-append (c ∷ d ∷ s) t frame rest h e = ground (arith, h.0, cut-append (d ∷ s) t frame rest h.1 e)

cut_break :
    (t frame rest : Text)
    → cut (text "d" ++ t) ≡ some (frame, rest)
    → cut (10 ∷ text "d" ++ t) ≡ some (10 ∷ frame, rest)
unfolding cut
cut_break t frame rest e = ground (arith, e)

-- The frame that `sendSSE` writes, without the empty line that ends it.
abbrev pub frame_text : Text → Text → Text
frame_text event payload = text "event: " ++ (event ++ (10 ∷ text "data: " ++ payload))

cut-send_sse :
    (event payload rest : Text)
    → Lacks 10 event
    → Lacks 10 payload
    → cut (send_sse event payload ++ rest) ≡ some (frame_text event payload, rest)
unfolding send_sse
cut-send_sse event payload rest h k =
    let stop : cut (10 ∷ 10 ∷ rest) ≡ some ([], rest) = unfold cut in refl in
    let body = cut-append payload (10 ∷ 10 ∷ rest) [] rest k stop in
    let line =
      cut-append (text "data: ") (payload ++ (10 ∷ 10 ∷ rest)) (payload ++ []) rest (omega arith)
        body in
    let break =
      cut_break (text "ata: " ++ (payload ++ (10 ∷ 10 ∷ rest))) (text "data: " ++ (payload ++ []))
        rest line in
    let first =
      cut-append event (10 ∷ text "data: " ++ (payload ++ (10 ∷ 10 ∷ rest)))
        (10 ∷ text "data: " ++ (payload ++ [])) rest h break in
    let all =
      cut-append (text "event: ") (event ++ (10 ∷ text "data: " ++ (payload ++ (10 ∷ 10 ∷ rest))))
        (event ++ (10 ∷ text "data: " ++ (payload ++ []))) rest (omega arith) first in
    simp append_assoc (simp append-nil at all)

lines_of_frame :
    (event payload : Text)
    → Lacks 10 event
    → Lacks 10 payload
    → split 10 (frame_text event payload)
      ≡ (text "event: " ++ event) ∷ (text "data: " ++ payload) ∷ []
lines_of_frame event payload h k =
    split-append 10 (text "event: " ++ event) (text "data: " ++ payload) (grind arith)
    ∙ ap (λ l. (text "event: " ++ event) ∷ l)
        (split-single 10 (text "data: " ++ payload) (grind arith))

-- A message of the server: the name of an event, the text of its data, and what the text stands for.
pub record Message (D : Type 0) : Type 0 where
  pub event : Text
  pub payload : Text
  pub value : D

module _ {D : Type 0} (parse_json : Text → Option D) (throws : Delivery D → Option Text) where
  -- `json.Marshal` writes no line break, and `JSON.parse` reads what it writes.
  pub record IsSent (m : Message D) : Type 0 where
    pub one_line : Lacks 10 m.payload
    pub event_line : Lacks 10 m.event
    pub trimmed : trim m.event ≡ m.event
    pub readable : parse_json m.payload ≡ some m.value

  parse_frame-frame_text :
      (m : Message D)
      → IsSent m
      → parse_frame parse_json throws (frame_text m.event m.payload)
        ≡ some (record { event = m.event; payload = m.value })
  unfolding parse_frame read_line join
  parse_frame-frame_text m s =
      rw (lines_of_frame m.event m.payload s.event_line s.one_line)
        (ground (arith, s.trimmed, s.readable))

  -- The text that the server sends for some messages.
  abbrev pub wire : List (Message D) → Text
  wire [] = []
  wire (m ∷ ms) = send_sse m.event m.payload ++ wire ms

  -- The handler that the name of a message asks for.
  abbrev pub handler_for : Message D → Option (Delivery D)
  handler_for m =
      if m.event === text "end"
      then some (on_end m.value)
      else if m.event === text "event"
      then some (on_event m.value)
      else if m.event === text "meta"
      then some (on_meta m.value)
      else none

  -- A handler that throws is followed by the handler of errors.
  abbrev pub with_error : Delivery D → Option Text → List (Delivery D)
  with_error d none = d ∷ []
  with_error d (some message) = d ∷ on_error message ∷ []

  abbrev pub call_once : Option (Delivery D) → List (Delivery D)
  call_once none = []
  call_once (some d) = with_error d (throws d)

  -- The calls that the messages stand for: one for each that has a handler.
  abbrev pub calls_of : List (Message D) → List (Delivery D)
  calls_of [] = []
  calls_of (m ∷ ms) = call_once (handler_for m) ++ calls_of ms

  attempt-with_error : (d : Delivery D) → attempt parse_json throws d ≡ with_error d (throws d)
  attempt-with_error d = same (throws d)
    where
      same :
          (o : Option Text)
          → elim o [ none ↦ d ∷ [] | some message ↦ d ∷ on_error message ∷ [] ] ≡ with_error d o
      same none = refl
      same (some message) = refl

  other_name : (e a b : Text) → (e === a) ≡ true → (a === b) ≡ false → (e === b) ≡ false
  other_name e a b h k = subst (λ v. (v === b) ≡ false) (sym ((===_iff e a).0 h)) k

  deliver-call_once :
      (m : Message D)
      → deliver parse_json throws (some (record { event = m.event; payload = m.value }))
        ≡ call_once (handler_for m)
  unfolding deliver ◌===◌
  deliver-call_once m = elim (Bool-cases (m.event === text "meta")) [
    | inl e ↦
        rw
          (
            e,
            other_name m.event (text "meta") (text "end") e refl,
            other_name m.event (text "meta") (text "event") e refl,
          )
          (attempt-with_error (on_meta m.value))
    | inr no_meta ↦ elim (Bool-cases (m.event === text "event")) [
      | inl e ↦
          rw (no_meta, e, other_name m.event (text "event") (text "end") e refl)
            (attempt-with_error (on_event m.value))
      | inr no_event ↦ elim (Bool-cases (m.event === text "end")) [
        | inl e ↦ rw (no_meta, no_event, e) (attempt-with_error (on_end m.value))
        | inr no_end ↦ rw (no_meta, no_event, no_end) refl
      ]
    ]
  ]

  abbrev frame_texts : List (Message D) → List Text
  frame_texts [] = []
  frame_texts (m ∷ ms) = frame_text m.event m.payload ∷ frame_texts ms

  frames_of-wire :
      (ms : List (Message D)) → All IsSent ms → frames_of (wire ms) ≡ (frame_texts ms, [])
  frames_of-wire [] h = frames_of-none [] cut-nil
  frames_of-wire (m ∷ ms) h =
      frames_of_cons (wire (m ∷ ms)) (frame_text m.event m.payload) (wire ms)
        (cut-send_sse m.event m.payload (wire ms) h.0.event_line h.0.one_line)
      ∙ rw (frames_of-wire ms h.1)

  deliver_all-frame_texts :
      (ms : List (Message D))
      → All IsSent ms
      → deliver_all parse_json throws (frame_texts ms) ≡ calls_of ms
  deliver_all-frame_texts [] h = refl
  deliver_all-frame_texts (m ∷ ms) h =
      rw (parse_frame-frame_text m h.0, deliver_all-frame_texts ms h.1, deliver-call_once m)

  -- If the text that arrives is what `sendSSE` wrote for some messages, then however it is cut into
  -- chunks: the handler for the name of each message, `meta`, `event` or `end`, is called once with what
  -- the payload stands for, in order, the handler of errors once behind each call that throws, and
  -- nothing else is called and nothing left over. Messages of other names call nothing.
  pub read_all-wire :
      (ms : List (Message D)) (chunks : List Text)
      → All IsSent ms
      → concat chunks ≡ wire ms
      → read_all parse_json throws start chunks ≡ record { buffer = []; delivered = calls_of ms }
  unfolding on_chunk
  read_all-wire ms chunks h e =
      read_all-concat parse_json throws start chunks cut-nil
      ∙ rw (e, frames_of-wire ms h, deliver_all-frame_texts ms h)
