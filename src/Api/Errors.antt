-- ===== src/Api/Errors.antt =====
-- When a call of the client fails.
use veckomenyn.Base.{
  ℕ, ◌≡◌, refl, ◌∙◌, Bool, true, false, not, ◌==◌, none, some, Option, List, ◌++◌, show, Bool-cases,
  inl, inr, Text, text, ◌&&◌, ◌||◌, if◌then◌else◌, arith,
}
use veckomenyn.Api.Http.{Outcome, returns, throws, Response, ok, json_or, map_outcome, with_status}
use veckomenyn.Api.Weeks.{or_null, ChatRequest, stream_chat}
use veckomenyn.Api.Calls.{
  Call, Answer, exchange, on_set_dinner_rating, on_clear_dinner_rating, on_set_week_retrospective,
  on_list_weeks, on_get_current_week, on_create_week, on_get_week, on_get_week_by_id, on_clone_week,
  on_delete_week, on_patch_week, on_get_settings, on_patch_settings, on_list_providers,
  on_patch_provider, on_test_provider, on_list_preferences, on_save_preference,
  on_delete_preference, on_list_conversations, on_get_conversation, on_get_week_conversation,
  on_delete_week_conversations, on_get_usage_summary, on_get_version, on_get_updates,
  on_check_updates, on_apply_update, on_get_update_config, on_patch_update_config,
  on_get_setup_status, on_seed_preferences, on_list_backups, on_take_backup, on_delete_backup,
  on_get_backup_config, on_patch_backup_config, on_stream_chat,
}

abbrev pub is_failed : {A : Type 0} → Outcome A → Bool
is_failed (returns _) = false
is_failed (throws _) = true

-- What a call reads of a response that is not refused.
pub data Reads : Type 0 where
  nothing_read : Reads
  -- the JSON
  json_read : Reads
  -- the JSON, unless the status is 204
  json_read_or_null : Reads

abbrev pub reads_of : Call → Reads
reads_of (on_set_dinner_rating _ _ _) = nothing_read
reads_of (on_clear_dinner_rating _) = nothing_read
reads_of (on_set_week_retrospective _ _) = nothing_read
reads_of on_get_current_week = json_read_or_null
reads_of (on_delete_week _) = nothing_read
reads_of (on_delete_preference _) = nothing_read
reads_of (on_get_week_conversation _) = json_read_or_null
reads_of (on_delete_week_conversations _) = nothing_read
reads_of on_apply_update = nothing_read
reads_of (on_delete_backup _) = nothing_read
reads_of _ = json_read

abbrev pub is_missing : Outcome (Option (List Text)) → Bool
is_missing (returns none) = true
is_missing o = false

-- The response to `streamChat` has no body.
abbrev pub lacks_body : (N : Type 0) → (c : Call) → Outcome (Answer N c) → Bool
lacks_body N (on_stream_chat _) o = is_missing o
lacks_body N c o = false

-- A week that is not there counts as deleted.
abbrev pub forgives : Call → ℕ → Bool
forgives (on_delete_week _) status = status == 404
forgives _ status = false

abbrev pub fails_reading : {A : Type 0} → Reads → Response A → Bool
fails_reading nothing_read r = false
fails_reading json_read r = is_failed r.json
fails_reading json_read_or_null r = not (r.status == 204) && is_failed r.json

is_failed-map :
    {A B : Type 0} (f : A → B) (x : Outcome A) → is_failed (map_outcome f x) ≡ is_failed x
is_failed-map f (returns x) = refl
is_failed-map f (throws e) = refl

module _ {A : Type 0} (message : Response A → Text) (r : Response A) where
  is_failed-json_or : is_failed (json_or message r) ≡ (if ok r then is_failed r.json else true)
  is_failed-json_or = ground arith

  is_failed-map_json_or :
      {B : Type 0} (f : A → B)
      → is_failed (map_outcome f (json_or message r)) ≡ (if ok r then is_failed r.json else true)
  is_failed-map_json_or f = is_failed-map f (json_or message r) ∙ is_failed-json_or

  is_failed-or_null :
      is_failed (or_null message r)
      ≡ (if ok r then not (r.status == 204) && is_failed r.json else true)
  is_failed-or_null = ground (arith, is_failed-map_json_or (λ x. some x))

is_failed-stream :
    (c : ChatRequest) (r : Response (Option (List Text)))
    → is_failed ((stream_chat c).receive r)
      ≡ (if ok r then is_missing r.json || is_failed r.json else true)
is_failed-stream c r = elim (Bool-cases (ok r)) [ inl e ↦ rw e (body r.json) | inr e ↦ rw e refl ]
  where
    body :
        (o : Outcome (Option (List Text)))
        → is_failed (elim o [
          | throws e ↦ throws e
          | returns none ↦ throws (text "chat: " ++ (show r.status ++ (text " " ++ r.status_text)))
          | returns (some stream) ↦ returns stream
        ])
          ≡ (is_missing o || is_failed o)
    body (throws e) = refl
    body (returns none) = refl
    body (returns (some stream)) = refl

-- Every call, the one that streams the chat with them, throws exactly where its response has a status
-- outside of 200 to 299, where the call reads JSON or a body that cannot be read, or where the body of the
-- chat's stream is missing. To delete a week that is not found does not throw, and the current week
-- and the conversation of a week read nothing at the status 204.
pub is_failed-receive :
    (N : Type 0) (encode : Text → Text) (c : Call) (r : Response (Answer N c))
    → is_failed ((exchange N encode c).receive r) ≡ (
        if ok r
        then lacks_body N c r.json || fails_reading (reads_of c) r
        else not (forgives c r.status))
is_failed-receive N encode (on_set_dinner_rating d x n) r = ground arith
is_failed-receive N encode (on_clear_dinner_rating d) r = ground arith
is_failed-receive N encode (on_set_week_retrospective w n) r = ground arith
is_failed-receive N encode on_list_weeks r =
    is_failed-map_json_or (with_status (text "list weeks")) r (λ j. j.weeks)
is_failed-receive N encode on_get_current_week r =
    is_failed-or_null (with_status (text "current week")) r
is_failed-receive N encode (on_create_week i) r = ground arith
is_failed-receive N encode (on_get_week iso) r = ground arith
is_failed-receive N encode (on_get_week_by_id w) r = ground arith
is_failed-receive N encode (on_clone_week w o) r = ground arith
is_failed-receive N encode (on_delete_week w) r = ground arith
is_failed-receive N encode (on_patch_week w p) r = ground arith
is_failed-receive N encode on_get_settings r = ground arith
is_failed-receive N encode (on_patch_settings p) r = ground arith
is_failed-receive N encode on_list_providers r = ground arith
is_failed-receive N encode (on_patch_provider k p) r = ground arith
is_failed-receive N encode on_test_provider r = ground arith
is_failed-receive N encode on_list_preferences r =
    is_failed-map_json_or (with_status (text "list preferences")) r (λ j. j.preferences)
is_failed-receive N encode (on_save_preference k b) r = ground arith
is_failed-receive N encode (on_delete_preference k) r = ground arith
is_failed-receive N encode on_list_conversations r =
    is_failed-map_json_or (with_status (text "list conversations")) r (λ j. j.conversations)
is_failed-receive N encode (on_get_conversation w) r = ground arith
is_failed-receive N encode (on_get_week_conversation w) r =
    is_failed-or_null (with_status (text "get week conversation")) r
is_failed-receive N encode (on_delete_week_conversations w) r = ground arith
is_failed-receive N encode on_get_usage_summary r = ground arith
is_failed-receive N encode on_get_version r = ground arith
is_failed-receive N encode on_get_updates r = ground arith
is_failed-receive N encode on_check_updates r = ground arith
is_failed-receive N encode on_apply_update r = ground arith
is_failed-receive N encode on_get_update_config r = ground arith
is_failed-receive N encode (on_patch_update_config b) r = ground arith
is_failed-receive N encode on_get_setup_status r = ground arith
is_failed-receive N encode on_seed_preferences r = ground arith
is_failed-receive N encode on_list_backups r =
    is_failed-map_json_or (with_status (text "backups")) r (λ j. j.backups)
is_failed-receive N encode on_take_backup r = ground arith
is_failed-receive N encode (on_delete_backup k) r = ground arith
is_failed-receive N encode on_get_backup_config r = ground arith
is_failed-receive N encode (on_patch_backup_config p) r = ground arith
is_failed-receive N encode (on_stream_chat c) r = is_failed-stream c r
