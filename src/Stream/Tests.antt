-- ===== src/Stream/Tests.antt =====
-- The event stream on small inputs. Here `JSON.parse` keeps the text, and no handler throws.
use veckomenyn.Base.{
  ◌≡◌, refl, Option, none, some, List, [], ◌∷◌, ◌++◌, Text, text, arith, trim, split, join, ◌===◌,
}
use veckomenyn.Stream.{
  Delivery, on_meta, on_event, start, cut, read_all, on_chunk, parse_frame, deliver, frames_of,
  read_line, send_sse,
}
use veckomenyn.Stream.Chunks.{concat, read_all_chunking}
use veckomenyn.Stream.Messages.{Message, calls_of, read_all-wire}

abbrev keep_text : Text → Option Text
keep_text s = some s

abbrev never : Delivery Text → Option Text
never d = none

abbrev messages : List (Message Text)
messages =
    record { event = text "meta"; payload = text "{1}"; value = text "{1}" }
    ∷ record { event = text "event"; payload = text "{2}"; value = text "{2}" }
    ∷ []

abbrev chunks : List Text
chunks =
    text "event: me"
    ∷ (text "ta" ++ (10 ∷ text "data: {1}" ++ (10 ∷ [])))
    ∷ (10 ∷ text "event: event" ++ (10 ∷ text "data: {2}" ++ (10 ∷ 10 ∷ [])))
    ∷ []

read_all-chunks :
    (read_all keep_text never start chunks).delivered
    ≡ on_meta (text "{1}") ∷ on_event (text "{2}") ∷ []
unfolding on_chunk frames_of cut deliver parse_frame read_line trim split join ◌===◌
read_all-chunks = refl

read_all_chunking_example :
    (read_all keep_text never start chunks ≡ read_all keep_text never start (concat chunks ∷ []))
    × (cut (read_all keep_text never start chunks).buffer ≡ none)
read_all_chunking_example = read_all_chunking keep_text never chunks (concat chunks ∷ []) refl

read_all-wire_example :
    read_all keep_text never start chunks
    ≡ record { buffer = []; delivered = calls_of keep_text never messages }
unfolding send_sse trim
read_all-wire_example =
    read_all-wire keep_text never messages chunks
      (
        record {
          one_line = omega arith;
          event_line = omega arith;
          trimmed = refl;
          readable = refl;
        },
        (
          record {
            one_line = omega arith;
            event_line = omega arith;
            trimmed = refl;
            readable = refl;
          },
          tt,
        ),
      )
      refl
