-- ===== src/Api/Contract.antt =====
-- The calls of web/src/lib/api.ts beside the table of routes of internal/server/server.go.
use veckomenyn.Base.{
  ℕ, ◌≡◌, ◌≢◌, refl, ap, ◌∙◌, true, false, ◌&&◌, List, [], ◌∷◌, Text, text, ◌===◌, ===_iff, show,
  Lacks, all, is_digit, all_digits-show, show-ne-nil, split, split-append, split-single, arith,
  if◌then◌else◌,
}
use veckomenyn.Api.Http.{Request, get_method, post_method, put_method, patch_method, delete_method}
use veckomenyn.Api.Calls.{
  Call, exchange, on_set_dinner_rating, on_clear_dinner_rating, on_set_week_retrospective,
  on_list_weeks, on_get_current_week, on_create_week, on_get_week, on_get_week_by_id, on_clone_week,
  on_delete_week, on_patch_week, on_get_settings, on_patch_settings, on_list_providers,
  on_patch_provider, on_test_provider, on_list_preferences, on_save_preference,
  on_delete_preference, on_list_conversations, on_get_conversation, on_get_week_conversation,
  on_delete_week_conversations, on_get_usage_summary, on_get_version, on_get_updates,
  on_check_updates, on_apply_update, on_get_update_config, on_patch_update_config,
  on_get_setup_status, on_seed_preferences, on_list_backups, on_take_backup, on_delete_backup,
  on_get_backup_config, on_patch_backup_config, on_stream_chat,
}
use veckomenyn.Api.Server.{
  below_api, Handler, handlers, handlers_in, fits, routes, handle_apply_update,
  handle_check_updates, handle_clone_week, handle_create_backup, handle_create_week,
  handle_current_week, handle_delete_backup, handle_delete_dinner_rating, handle_delete_preference,
  handle_delete_week, handle_delete_week_conversations, handle_get_backup_config,
  handle_get_conversation, handle_get_settings, handle_get_setup_status, handle_get_update_config,
  handle_get_updates, handle_get_usage_summary, handle_get_week, handle_get_week_by_id,
  handle_get_week_conversation, handle_list_backups, handle_list_conversations,
  handle_list_preferences, handle_list_providers, handle_list_weeks, handle_patch_backup_config,
  handle_patch_provider, handle_patch_settings, handle_patch_update_config, handle_patch_week,
  handle_put_dinner_rating, handle_put_preference, handle_put_week_retrospective,
  handle_seed_preferences, handle_test_provider, handle_version, handle_chat,
}

abbrev pub handlers_of : Call → List Handler
handlers_of (on_set_dinner_rating d x n) = handle_put_dinner_rating ∷ []
handlers_of (on_clear_dinner_rating d) = handle_delete_dinner_rating ∷ []
handlers_of (on_set_week_retrospective w n) = handle_put_week_retrospective ∷ []
handlers_of on_list_weeks = handle_list_weeks ∷ []
handlers_of on_get_current_week = handle_current_week ∷ handle_get_week ∷ []
handlers_of (on_create_week i) = handle_create_week ∷ []
handlers_of (on_get_week iso) = handle_get_week ∷ []
handlers_of (on_get_week_by_id w) = handle_get_week_by_id ∷ []
handlers_of (on_clone_week w o) = handle_clone_week ∷ []
handlers_of (on_delete_week w) = handle_delete_week ∷ []
handlers_of (on_patch_week w p) = handle_patch_week ∷ []
handlers_of on_get_settings = handle_get_settings ∷ []
handlers_of (on_patch_settings p) = handle_patch_settings ∷ []
handlers_of on_list_providers = handle_list_providers ∷ []
handlers_of (on_patch_provider k p) = handle_patch_provider ∷ []
handlers_of on_test_provider = handle_test_provider ∷ []
handlers_of on_list_preferences = handle_list_preferences ∷ []
handlers_of (on_save_preference k b) = handle_put_preference ∷ []
handlers_of (on_delete_preference k) = handle_delete_preference ∷ []
handlers_of on_list_conversations = handle_list_conversations ∷ []
handlers_of (on_get_conversation w) = handle_get_conversation ∷ []
handlers_of (on_get_week_conversation w) = handle_get_week_conversation ∷ []
handlers_of (on_delete_week_conversations w) = handle_delete_week_conversations ∷ []
handlers_of on_get_usage_summary = handle_get_usage_summary ∷ []
handlers_of on_get_version = handle_version ∷ []
handlers_of on_get_updates = handle_get_updates ∷ []
handlers_of on_check_updates = handle_check_updates ∷ []
handlers_of on_apply_update = handle_apply_update ∷ []
handlers_of on_get_update_config = handle_get_update_config ∷ []
handlers_of (on_patch_update_config b) = handle_patch_update_config ∷ []
handlers_of on_get_setup_status = handle_get_setup_status ∷ []
handlers_of on_seed_preferences = handle_seed_preferences ∷ []
handlers_of on_list_backups = handle_list_backups ∷ []
handlers_of on_take_backup = handle_create_backup ∷ []
handlers_of (on_delete_backup k) = handle_delete_backup ∷ []
handlers_of on_get_backup_config = handle_get_backup_config ∷ []
handlers_of (on_patch_backup_config p) = handle_patch_backup_config ∷ []
handlers_of (on_stream_chat c) = handle_chat ∷ []

-- What is asked of `encodeURIComponent`: its results have no slash, and are empty for the empty text only.
pub record IsEncoder (encode : Text → Text) : Type 0 where
  pub lacks : (s : Text) → Lacks b'/' (encode s)
  pub filled : (s : Text) → s ≢ [] → encode s ≢ []

-- The names that stand in a path are not empty; `current` is no week, since its path has a route.
abbrev pub IsNamed : (Text → Text) → Call → Type 0
IsNamed encode (on_get_week iso) = (iso ≢ []) × (encode iso ≢ text "current")
IsNamed encode (on_patch_provider k _) = k ≢ []
IsNamed encode (on_save_preference k _) = k ≢ []
IsNamed encode (on_delete_preference k) = k ≢ []
IsNamed encode (on_delete_backup k) = k ≢ []
IsNamed _ _ = Unit

pub handlers-split :
    (q : Request) (segments : List Text)
    → split b'/' q.path ≡ [] ∷ text "api" ∷ segments
    → handlers q ≡ handlers_in q.method segments routes
unfolding handlers ◌===◌
handlers-split q segments h = ap (λ p. handlers_in q.method (below_api p) routes) h

-- A value that is the same at all segments that are not empty.
pub at_segment :
    {A : Type 0} (f : Text → A) (x : A)
    → ((c : ℕ) (s : Text) → f (c ∷ s) ≡ x)
    → (s : Text) → s ≢ []
    → f s ≡ x
at_segment f x h [] filled = absurd (filled refl)
at_segment f x h (c ∷ s) filled = h c s

Lacks-digits : (s : Text) → all is_digit s ≡ true → Lacks b'/' s
Lacks-digits [] h = tt
Lacks-digits (c ∷ s) h = (λ e. ground arith, Lacks-digits s (ground arith))

Lacks-show : (n : ℕ) → Lacks b'/' (show n)
Lacks-show n = Lacks-digits (show n) (all_digits-show n)

handlers_in-week :
    (s : Text)
    → s ≢ []
    → s ≢ text "current"
    → handlers_in get_method (text "weeks" ∷ s ∷ []) routes ≡ handle_get_week ∷ []
unfolding handlers_in fits ◌===◌
handlers_in-week [] filled other = absurd (filled refl)
handlers_in-week (c ∷ s) filled other =
    let no : ((c ∷ s) === text "current") ≡ false =
      ground (arith, ===_iff (c ∷ s) (text "current")) in
    ap (λ b. if b && true then handle_current_week ∷ handle_get_week ∷ [] else handle_get_week ∷ [])
      no

module _ (N : Type 0) (encode : Text → Text) (encoder : IsEncoder encode) where
  pub handlers-exchange :
      (c : Call) → IsNamed encode c → handlers (exchange N encode c).request ≡ handlers_of c
  unfolding handlers handlers_in fits ◌===◌ split
  handlers-exchange (on_set_dinner_rating d x n) h =
      handlers-split (exchange N encode (on_set_dinner_rating d x n)).request
        (text "dinners" ∷ text "id" ∷ show d ∷ text "rating" ∷ [])
        (ap (λ p. [] ∷ text "api" ∷ text "dinners" ∷ text "id" ∷ p)
          (split-append 47 (show d) (text "rating") (Lacks-show d)))
      ∙ at_segment
          (λ s. handlers_in put_method (text "dinners" ∷ text "id" ∷ s ∷ text "rating" ∷ []) routes)
          (handle_put_dinner_rating ∷ []) (λ c s. refl) (show d) (show-ne-nil d)
  handlers-exchange (on_clear_dinner_rating d) h =
      handlers-split (exchange N encode (on_clear_dinner_rating d)).request
        (text "dinners" ∷ text "id" ∷ show d ∷ text "rating" ∷ [])
        (ap (λ p. [] ∷ text "api" ∷ text "dinners" ∷ text "id" ∷ p)
          (split-append 47 (show d) (text "rating") (Lacks-show d)))
      ∙ at_segment
          (λ s.
            handlers_in delete_method (text "dinners" ∷ text "id" ∷ s ∷ text "rating" ∷ []) routes)
          (handle_delete_dinner_rating ∷ []) (λ c s. refl) (show d) (show-ne-nil d)
  handlers-exchange (on_set_week_retrospective w n) h =
      handlers-split (exchange N encode (on_set_week_retrospective w n)).request
        (text "weeks" ∷ text "id" ∷ show w ∷ text "retrospective" ∷ [])
        (ap (λ p. [] ∷ text "api" ∷ text "weeks" ∷ text "id" ∷ p)
          (split-append 47 (show w) (text "retrospective") (Lacks-show w)))
      ∙ at_segment
          (λ s.
            handlers_in put_method (text "weeks" ∷ text "id" ∷ s ∷ text "retrospective" ∷ [])
              routes)
          (handle_put_week_retrospective ∷ []) (λ c s. refl) (show w) (show-ne-nil w)
  handlers-exchange on_list_weeks h = refl
  handlers-exchange on_get_current_week h = refl
  handlers-exchange (on_create_week i) h = refl
  handlers-exchange (on_get_week iso) h =
      handlers-split (exchange N encode (on_get_week iso)).request (text "weeks" ∷ encode iso ∷ [])
        (ap (λ p. [] ∷ text "api" ∷ text "weeks" ∷ p)
          (split-single 47 (encode iso) (encoder.lacks iso)))
      ∙ handlers_in-week (encode iso) (encoder.filled iso h.0) h.1
  handlers-exchange (on_get_week_by_id w) h =
      handlers-split (exchange N encode (on_get_week_by_id w)).request
        (text "weeks" ∷ text "id" ∷ show w ∷ [])
        (ap (λ p. [] ∷ text "api" ∷ text "weeks" ∷ text "id" ∷ p)
          (split-single 47 (show w) (Lacks-show w)))
      ∙ at_segment (λ s. handlers_in get_method (text "weeks" ∷ text "id" ∷ s ∷ []) routes)
          (handle_get_week_by_id ∷ []) (λ c s. refl) (show w) (show-ne-nil w)
  handlers-exchange (on_clone_week w o) h =
      handlers-split (exchange N encode (on_clone_week w o)).request
        (text "weeks" ∷ text "id" ∷ show w ∷ text "clone" ∷ [])
        (ap (λ p. [] ∷ text "api" ∷ text "weeks" ∷ text "id" ∷ p)
          (split-append 47 (show w) (text "clone") (Lacks-show w)))
      ∙ at_segment
          (λ s. handlers_in post_method (text "weeks" ∷ text "id" ∷ s ∷ text "clone" ∷ []) routes)
          (handle_clone_week ∷ []) (λ c s. refl) (show w) (show-ne-nil w)
  handlers-exchange (on_delete_week w) h =
      handlers-split (exchange N encode (on_delete_week w)).request
        (text "weeks" ∷ text "id" ∷ show w ∷ [])
        (ap (λ p. [] ∷ text "api" ∷ text "weeks" ∷ text "id" ∷ p)
          (split-single 47 (show w) (Lacks-show w)))
      ∙ at_segment (λ s. handlers_in delete_method (text "weeks" ∷ text "id" ∷ s ∷ []) routes)
          (handle_delete_week ∷ []) (λ c s. refl) (show w) (show-ne-nil w)
  handlers-exchange (on_patch_week w p) h =
      handlers-split (exchange N encode (on_patch_week w p)).request
        (text "weeks" ∷ text "id" ∷ show w ∷ [])
        (ap (λ p. [] ∷ text "api" ∷ text "weeks" ∷ text "id" ∷ p)
          (split-single 47 (show w) (Lacks-show w)))
      ∙ at_segment (λ s. handlers_in patch_method (text "weeks" ∷ text "id" ∷ s ∷ []) routes)
          (handle_patch_week ∷ []) (λ c s. refl) (show w) (show-ne-nil w)
  handlers-exchange on_get_settings h = refl
  handlers-exchange (on_patch_settings p) h = refl
  handlers-exchange on_list_providers h = refl
  handlers-exchange (on_patch_provider k p) h =
      handlers-split (exchange N encode (on_patch_provider k p)).request
        (text "providers" ∷ encode k ∷ [])
        (ap (λ p. [] ∷ text "api" ∷ text "providers" ∷ p)
          (split-single 47 (encode k) (encoder.lacks k)))
      ∙ at_segment (λ s. handlers_in patch_method (text "providers" ∷ s ∷ []) routes)
          (handle_patch_provider ∷ []) (λ c s. refl) (encode k) (encoder.filled k h)
  handlers-exchange on_test_provider h = refl
  handlers-exchange on_list_preferences h = refl
  handlers-exchange (on_save_preference k b) h =
      handlers-split (exchange N encode (on_save_preference k b)).request
        (text "preferences" ∷ encode k ∷ [])
        (ap (λ p. [] ∷ text "api" ∷ text "preferences" ∷ p)
          (split-single 47 (encode k) (encoder.lacks k)))
      ∙ at_segment (λ s. handlers_in put_method (text "preferences" ∷ s ∷ []) routes)
          (handle_put_preference ∷ []) (λ c s. refl) (encode k) (encoder.filled k h)
  handlers-exchange (on_delete_preference k) h =
      handlers-split (exchange N encode (on_delete_preference k)).request
        (text "preferences" ∷ encode k ∷ [])
        (ap (λ p. [] ∷ text "api" ∷ text "preferences" ∷ p)
          (split-single 47 (encode k) (encoder.lacks k)))
      ∙ at_segment (λ s. handlers_in delete_method (text "preferences" ∷ s ∷ []) routes)
          (handle_delete_preference ∷ []) (λ c s. refl) (encode k) (encoder.filled k h)
  handlers-exchange on_list_conversations h = refl
  handlers-exchange (on_get_conversation w) h =
      handlers-split (exchange N encode (on_get_conversation w)).request
        (text "conversations" ∷ show w ∷ [])
        (ap (λ p. [] ∷ text "api" ∷ text "conversations" ∷ p)
          (split-single 47 (show w) (Lacks-show w)))
      ∙ at_segment (λ s. handlers_in get_method (text "conversations" ∷ s ∷ []) routes)
          (handle_get_conversation ∷ []) (λ c s. refl) (show w) (show-ne-nil w)
  handlers-exchange (on_get_week_conversation w) h =
      handlers-split (exchange N encode (on_get_week_conversation w)).request
        (text "weeks" ∷ text "id" ∷ show w ∷ text "conversation" ∷ [])
        (ap (λ p. [] ∷ text "api" ∷ text "weeks" ∷ text "id" ∷ p)
          (split-append 47 (show w) (text "conversation") (Lacks-show w)))
      ∙ at_segment
          (λ s.
            handlers_in get_method (text "weeks" ∷ text "id" ∷ s ∷ text "conversation" ∷ []) routes)
          (handle_get_week_conversation ∷ []) (λ c s. refl) (show w) (show-ne-nil w)
  handlers-exchange (on_delete_week_conversations w) h =
      handlers-split (exchange N encode (on_delete_week_conversations w)).request
        (text "weeks" ∷ text "id" ∷ show w ∷ text "conversations" ∷ [])
        (ap (λ p. [] ∷ text "api" ∷ text "weeks" ∷ text "id" ∷ p)
          (split-append 47 (show w) (text "conversations") (Lacks-show w)))
      ∙ at_segment
          (λ s.
            handlers_in delete_method (text "weeks" ∷ text "id" ∷ s ∷ text "conversations" ∷ [])
              routes)
          (handle_delete_week_conversations ∷ []) (λ c s. refl) (show w) (show-ne-nil w)
  handlers-exchange on_get_usage_summary h = refl
  handlers-exchange on_get_version h = refl
  handlers-exchange on_get_updates h = refl
  handlers-exchange on_check_updates h = refl
  handlers-exchange on_apply_update h = refl
  handlers-exchange on_get_update_config h = refl
  handlers-exchange (on_patch_update_config b) h = refl
  handlers-exchange on_get_setup_status h = refl
  handlers-exchange on_seed_preferences h = refl
  handlers-exchange on_list_backups h = refl
  handlers-exchange on_take_backup h = refl
  handlers-exchange (on_delete_backup k) h =
      handlers-split (exchange N encode (on_delete_backup k)).request
        (text "backups" ∷ encode k ∷ [])
        (ap (λ p. [] ∷ text "api" ∷ text "backups" ∷ p)
          (split-single 47 (encode k) (encoder.lacks k)))
      ∙ at_segment (λ s. handlers_in delete_method (text "backups" ∷ s ∷ []) routes)
          (handle_delete_backup ∷ []) (λ c s. refl) (encode k) (encoder.filled k h)
  handlers-exchange on_get_backup_config h = refl
  handlers-exchange (on_patch_backup_config p) h = refl
  handlers-exchange (on_stream_chat c) h = refl
