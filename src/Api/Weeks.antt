-- ===== src/Api/Weeks.antt =====
-- The functions of web/src/lib/api.ts on weeks, dinners and conversations. `encode` is
-- `encodeURIComponent`.
use veckomenyn.Base.{
  ℕ, not, ◌&&◌, ◌==◌, Option, none, some, List, [], ◌∷◌, ◌++◌, Text, text, show, if◌then◌else◌,
  is_empty,
}
use veckomenyn.Api.Http.{
  string, number, pos, Body, field, nullable, post_method, put_method, patch_method, delete_method,
  Exchange, Response, Outcome, returns, throws, Done, done, ok, with_status, with_text, json_or,
  done_or, get, send, map_outcome,
}
use veckomenyn.Api.Types.{
  Conversation, Dialogue, Status, draft, cart_built, ordered, WeekSummary, DinnerRating, loved,
  liked, meh, disliked, WeekDetail, WeekCreate, WeekPatch,
}

abbrev pub rating_name : DinnerRating → Text
rating_name loved = text "loved"
rating_name liked = text "liked"
rating_name meh = text "meh"
rating_name disliked = text "disliked"

abbrev pub status_name : Status → Text
status_name draft = text "draft"
status_name cart_built = text "cart_built"
status_name ordered = text "ordered"

abbrev pub set_dinner_rating : ℕ → DinnerRating → Text → Exchange Done Done
set_dinner_rating dinner_id rating notes =
    send put_method (text "/api/dinners/id/" ++ (show dinner_id ++ text "/rating"))
      (some ((text "rating", string (rating_name rating)) ∷ (text "notes", string notes) ∷ []))
      (done_or (with_text (text "set rating")))

abbrev pub clear_dinner_rating : ℕ → Exchange Done Done
clear_dinner_rating dinner_id =
    send delete_method (text "/api/dinners/id/" ++ (show dinner_id ++ text "/rating")) none
      (done_or (with_status (text "clear rating")))

abbrev pub set_week_retrospective : ℕ → Text → Exchange Done Done
set_week_retrospective week_id notes_md =
    send put_method (text "/api/weeks/id/" ++ (show week_id ++ text "/retrospective"))
      (some ((text "notes_md", string notes_md) ∷ []))
      (done_or (with_text (text "set retrospective")))

pub record WeekList : Type 0 where
  pub weeks : List WeekSummary

abbrev pub list_weeks : Exchange WeekList (List WeekSummary)
list_weeks =
    get (text "/api/weeks")
      (λ r. map_outcome (λ j. j.weeks) (json_or (with_status (text "list weeks")) r))

abbrev pub delete_week : ℕ → Exchange Done Done
delete_week id = send delete_method (text "/api/weeks/id/" ++ show id) none (λ r.
    if not (ok r) && not (r.status == 404)
    then throws (with_text (text "delete week") r)
    else returns done)

-- `if (r.status === 204) return null;`, before the other tests.
abbrev pub or_null : {A : Type 0} → (Response A → Text) → Response A → Outcome (Option A)
or_null message r =
    if r.status == 204 then returns none else map_outcome (λ x. some x) (json_or message r)

abbrev pub get_week_conversation : ℕ → Exchange Dialogue (Option Dialogue)
get_week_conversation week_id =
    get (text "/api/weeks/id/" ++ (show week_id ++ text "/conversation"))
      (or_null (with_status (text "get week conversation")))

abbrev pub delete_week_conversations : ℕ → Exchange Done Done
delete_week_conversations week_id =
    send delete_method (text "/api/weeks/id/" ++ (show week_id ++ text "/conversations")) none
      (done_or (with_status (text "delete week conversations")))

pub record ConversationList : Type 0 where
  pub conversations : List Conversation

abbrev pub list_conversations : Exchange ConversationList (List Conversation)
list_conversations =
    get (text "/api/conversations") (λ r.
      map_outcome (λ j. j.conversations) (json_or (with_status (text "list conversations")) r))

abbrev pub get_conversation : ℕ → Exchange Dialogue Dialogue
get_conversation id =
    get (text "/api/conversations/" ++ show id) (json_or (with_status (text "get conversation")))

abbrev pub create_body : WeekCreate → Body
create_body input =
    (text "start_date", string input.start_date)
    ∷ (text "end_date", string input.end_date)
    ∷ (text "notes_md", string input.notes_md)
    ∷ []

abbrev pub patch_body : WeekPatch → Body
patch_body p =
    field (text "iso_week") string p.iso_week
    ++ (field (text "start_date") string p.start_date
        ++ (field (text "end_date") string p.end_date
            ++ (field (text "delivery_date") (nullable string) p.delivery_date
                ++ (field (text "order_date") (nullable string) p.order_date
                    ++ (field (text "status") (λ s. string (status_name s)) p.status
                        ++ field (text "notes_md") string p.notes_md)))))

-- No body for an option that is absent or the empty text.
abbrev pub clone_body : Option Text → Option Body
clone_body none = none
clone_body (some start_date) =
    if is_empty start_date then none else some ((text "start_date", string start_date) ∷ [])

-- The body of `streamChat`.
pub record ChatRequest : Type 0 where
  pub conversation_id : Option ℕ
  pub week_id : Option ℕ
  pub message : Text

abbrev pub chat_body : ChatRequest → Body
chat_body c =
    field (text "conversation_id") (λ n. number (pos n)) c.conversation_id
    ++ (field (text "week_id") (λ n. number (pos n)) c.week_id
        ++ (text "message", string c.message) ∷ [])

-- What `streamChat` reads from, where it does not throw: the stream of the response, if it has one.
abbrev pub stream_chat : {A : Type 0} → ChatRequest → Exchange (Option A) A
stream_chat c = send post_method (text "/api/chat") (some (chat_body c)) (λ r.
    let error = throws (text "chat: " ++ (show r.status ++ (text " " ++ r.status_text))) in
    if not (ok r) then error else elim r.json [
      | throws e ↦ throws e
      | returns none ↦ error
      | returns (some stream) ↦ returns stream
    ])

module _ {N : Type 0} where
  abbrev pub get_current_week : Exchange (WeekDetail N) (Option (WeekDetail N))
  get_current_week = get (text "/api/weeks/current") (or_null (with_status (text "current week")))

  abbrev pub create_week : WeekCreate → Exchange (WeekDetail N) (WeekDetail N)
  create_week input =
      send post_method (text "/api/weeks") (some (create_body input))
        (json_or (with_text (text "create week")))

  abbrev pub get_week : (Text → Text) → Text → Exchange (WeekDetail N) (WeekDetail N)
  get_week encode iso =
      get (text "/api/weeks/" ++ encode iso) (json_or (with_status (text "get week")))

  abbrev pub get_week_by_id : ℕ → Exchange (WeekDetail N) (WeekDetail N)
  get_week_by_id id =
      get (text "/api/weeks/id/" ++ show id) (json_or (with_status (text "get week")))

  abbrev pub clone_week : ℕ → Option Text → Exchange (WeekDetail N) (WeekDetail N)
  clone_week source_id start_date =
      send post_method (text "/api/weeks/id/" ++ (show source_id ++ text "/clone"))
        (clone_body start_date) (json_or (with_text (text "clone week")))

  abbrev pub patch_week : ℕ → WeekPatch → Exchange (WeekDetail N) (WeekDetail N)
  patch_week id patch =
      send patch_method (text "/api/weeks/id/" ++ show id) (some (patch_body patch))
        (json_or (with_text (text "patch week")))
