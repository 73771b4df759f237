-- ===== src/Stream.antt =====
-- The event stream of a chat: `streamChat` and `parseFrame` of web/src/lib/api.ts, and the writer on
-- the server, `sendSSE` of internal/server/chat.go.
-- `TextDecoder` is not part of the program: a chunk is the text that it returns for one read.
-- `JSON.parse` is a parameter, and `none` where it throws. So are the exceptions of the handlers.
pub mod Frames
pub mod Chunks
pub mod Messages
mod Tests
use veckomenyn.Base.{
  ℕ, zero, suc, Bool, true, false, Option, none, some, List, [], ◌∷◌, ◌++◌, Text, text, ◌===◌,
  split, join, trim, drop, length, ◌==◌, ◌&&◌, if◌then◌else◌, show, ltb, leb, not,
}

-- `s.startsWith(prefix)`
unfoldable pub starts_with : Text → Text → Bool
starts_with [] s = true
starts_with (p ∷ prefix) [] = false
starts_with (p ∷ prefix) (c ∷ s) = c == p && starts_with prefix s

-- The two locals of `parseFrame`.
pub record Fields : Type 0 where
  pub event : Text
  pub data_lines : List Text

unfoldable pub read_line : Fields → Text → Fields
unfolding starts_with
read_line fields raw_line =
    if starts_with (text "event: ") raw_line
    then record fields { event = trim (drop 7 raw_line) }
    else if starts_with (text "data: ") raw_line
    then record fields { data_lines = fields.data_lines ++ drop 6 raw_line ∷ [] }
    else fields

abbrev pub read_lines : Fields → List Text → Fields
read_lines fields [] = fields
read_lines fields (l ∷ lines) = read_lines (read_line fields l) lines

pub record Parsed (D : Type 0) : Type 0 where
  pub event : Text
  pub payload : D

abbrev pub with_event : {D : Type 0} → Text → Option D → Option (Parsed D)
with_event event none = none
with_event event (some d) = some (record { event = event; payload = d })

abbrev pub no_fields : Fields
no_fields = record { event = text "message"; data_lines = [] }

-- What `streamChat` hands to its caller: a call of `onMeta`, `onEvent`, `onEnd` or `onError`.
pub data Delivery (D : Type 0) : Type 0 where
  on_meta on_event on_end : D → Delivery D
  on_error : Text → Delivery D

-- The buffer, and what has been handed over so far.
pub record Reader (D : Type 0) : Type 0 where
  pub buffer : Text
  pub delivered : List (Delivery D)

abbrev pub start : {D : Type 0} → Reader D
start = record { buffer = []; delivered = [] }

-- `buffer.indexOf("\n\n")`, with the text before it and the text behind it.
unfoldable pub cut : Text → Option (Text × Text)
cut [] = none
cut (c ∷ []) = none
cut (c ∷ d ∷ s) =
    if c == 10 && d == 10
    then some ([], s)
    else elim (cut (d ∷ s)) [ none ↦ none | some (frame, rest) ↦ some (c ∷ frame, rest) ]

-- The inner `while` loop: the frames of a buffer, and what is left of it.
unfoldable pub take_frames : ℕ → Text → List Text × Text
take_frames zero buffer = ([], buffer)
take_frames (suc fuel) buffer = elim (cut buffer) [
  | none ↦ ([], buffer)
  | some (frame, rest) ↦ let (frames, left) = take_frames fuel rest in (frame ∷ frames, left)
]

-- A frame takes two characters at least, so the length is fuel enough.
unfoldable pub frames_of : Text → List Text × Text
unfolding take_frames
frames_of buffer = take_frames (length buffer) buffer

module _ {D : Type 0} (parse_json : Text → Option D) (throws : Delivery D → Option Text) where
  unfoldable pub parse_frame : Text → Option (Parsed D)
  parse_frame frame =
      let fields = read_lines no_fields (split 10 frame) in
      if length fields.data_lines == 0
      then none
      else with_event fields.event (parse_json (join (10 ∷ []) fields.data_lines))

  -- A handler that throws is reported to `onError`.
  abbrev pub attempt : Delivery D → List (Delivery D)
  attempt d = elim (throws d) [ none ↦ d ∷ [] | some message ↦ d ∷ on_error message ∷ [] ]

  unfoldable pub deliver : Option (Parsed D) → List (Delivery D)
  deliver none = []
  deliver (some p) =
      if p.event === text "meta"
      then attempt (on_meta p.payload)
      else if p.event === text "event"
      then attempt (on_event p.payload)
      else if p.event === text "end"
      then attempt (on_end p.payload)
      else []

  abbrev pub deliver_all : List Text → List (Delivery D)
  deliver_all [] = []
  deliver_all (frame ∷ frames) = deliver (parse_frame frame) ++ deliver_all frames

  -- One round of the outer `while` loop.
  unfoldable pub on_chunk : Reader D → Text → Reader D
  on_chunk r chunk = record {
    buffer = (frames_of (r.buffer ++ chunk)).1;
    delivered = r.delivered ++ deliver_all (frames_of (r.buffer ++ chunk)).0;
  }

  abbrev pub read_all : Reader D → List Text → Reader D
  read_all r [] = r
  read_all r (chunk ∷ chunks) = read_all (on_chunk r chunk) chunks

-- `sendSSE`
unfoldable pub send_sse : Text → Text → Text
send_sse event payload =
    text "event: " ++ (event ++ (10 ∷ text "data: " ++ (payload ++ (10 ∷ 10 ∷ []))))
