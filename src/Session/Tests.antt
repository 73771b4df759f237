-- ===== src/Session/Tests.antt =====
-- A message of the chat on concrete events.
use veckomenyn.Base.{ℕ, ◌+◌, ◌≡◌, Option, none, some, List, [], ◌∷◌, ◌++◌, Text, text, length}
use veckomenyn.Chat.{ChatEntry, user, assistant, ChatState}
use veckomenyn.Chat.Replay.{delta}
use veckomenyn.Stream.Messages.{Message}
use veckomenyn.Api.Http.{throws}
use veckomenyn.Session.{Session, idle, Event, submit, stop, arrives, started, ends, run}
use veckomenyn.Session.Linked.{opened, run-IsLinked}
use veckomenyn.Chat.Links.{IsLinked}
use veckomenyn.Session.Alone.{ended, one_if, length-run_requests}

abbrev empty_chat : ChatState
empty_chat = record { entries = []; assistant_index = none; tools_by_id = [] }

-- `JSON.parse` keeps the text, and an event is the piece of text that its JSON is.
abbrev keep : Text → Option Text
keep s = some s

abbrev no_day : Text → Option Text
no_day s = none

abbrev one : Text → Option ℕ
one s = some 1

abbrev messages : List (Message Text)
messages =
    record { event = text "meta"; payload = text "{1}"; value = text "{1}" }
    ∷ record { event = text "event"; payload = text "Hi"; value = text "Hi" }
    ∷ record { event = text "event"; payload = text "!"; value = text "!" }
    ∷ []

-- All in one chunk.
abbrev whole : List Text
whole =
    (text "event: meta"
      ++ (10 ∷ text "data: {1}"
          ++ (10 ∷ 10 ∷ text "event: event"
              ++ (10 ∷ text "data: Hi"
                  ++ (10 ∷ 10 ∷ text "event: event" ++ (10 ∷ text "data: !" ++ (10 ∷ 10 ∷ [])))))))
    ∷ []

abbrev events : List (Event no_day)
events =
    submit (some 3) (text " Hello ")
    ∷ submit (some 3) (text "twice")
    ∷ started (some 1)
    ∷ arrives (delta (text "Hi"))
    ∷ stop
    ∷ ends (throws (text "aborted"))
    ∷ submit (some 3) (text "again")
    ∷ []

length-run_requests_example :
    length (run no_day events (idle empty_chat)).requests
    ≡ ended no_day events (idle empty_chat) + one_if (run no_day events (idle empty_chat)).busy
length-run_requests_example = length-run_requests no_day events empty_chat

run-IsLinked_example :
    IsLinked (run no_day events (opened (user (text "Old") ∷ assistant (text "Yes") ∷ []))).chat
run-IsLinked_example = run-IsLinked no_day events (user (text "Old") ∷ assistant (text "Yes") ∷ [])

-- The answer goes on when another conversation was loaded.
abbrev loaded : List ChatEntry
loaded = user (text "Old") ∷ assistant (text "Yes") ∷ []

abbrev streaming : Session
streaming =
    run no_day (submit (some 3) (text "Hello") ∷ arrives (delta (text "Hi")) ∷ []) (idle empty_chat)
