-- ===== src/Api/Server.antt =====
-- The routes of the server: `routes` of internal/server/server.go.
-- The router, chi, is not part of the program. A literal segment of a pattern stands for itself, and
-- `{name}` for any segment that is not empty.
use veckomenyn.Base.{
  Bool, true, false, not, ◌&&◌, List, [], ◌∷◌, Text, text, ◌===◌, ◌==◌, length, is_empty, split,
  if◌then◌else◌,
}
use veckomenyn.Api.Http.{
  Method, get_method, post_method, put_method, patch_method, delete_method, Request,
}

pub data Segment : Type 0 where
  fixed : Text → Segment
  param : Segment

pub data Handler : Type 0 where
  handle_health handle_version handle_get_updates handle_check_updates : Handler
  handle_apply_update handle_get_update_config handle_patch_update_config : Handler
  handle_get_setup_status handle_seed_preferences handle_chat : Handler
  handle_list_conversations handle_get_conversation handle_list_weeks : Handler
  handle_create_week handle_current_week handle_get_week handle_get_week_by_id : Handler
  handle_patch_week handle_delete_week handle_clone_week : Handler
  handle_get_week_conversation handle_delete_week_conversations : Handler
  handle_put_week_retrospective handle_put_dinner_rating : Handler
  handle_delete_dinner_rating handle_get_settings handle_patch_settings : Handler
  handle_list_providers handle_patch_provider handle_test_provider : Handler
  handle_list_preferences handle_put_preference handle_delete_preference : Handler
  handle_get_usage_summary handle_list_backups handle_create_backup : Handler
  handle_download_backup handle_delete_backup handle_get_backup_config : Handler
  handle_patch_backup_config : Handler

pub record Entry : Type 0 where
  pub method : Method
  pub pattern : List Segment
  pub handler : Handler

abbrev pub entry : Method → List Segment → Handler → Entry
entry m pattern h = record { method = m; pattern = pattern; handler = h }

-- The patterns below "/api".
abbrev pub routes : List Entry
routes =
    entry get_method (fixed (text "health") ∷ []) handle_health
    ∷ entry get_method (fixed (text "version") ∷ []) handle_version
    ∷ entry get_method (fixed (text "updates") ∷ []) handle_get_updates
    ∷ entry post_method (fixed (text "updates") ∷ fixed (text "check") ∷ []) handle_check_updates
    ∷ entry post_method (fixed (text "updates") ∷ fixed (text "apply") ∷ []) handle_apply_update
    ∷ entry get_method (fixed (text "update-config") ∷ []) handle_get_update_config
    ∷ entry patch_method (fixed (text "update-config") ∷ []) handle_patch_update_config
    ∷ entry get_method (fixed (text "setup-status") ∷ []) handle_get_setup_status
    ∷ entry post_method (fixed (text "preferences") ∷ fixed (text "seed") ∷ [])
        handle_seed_preferences
    ∷ entry post_method (fixed (text "chat") ∷ []) handle_chat
    ∷ entry get_method (fixed (text "conversations") ∷ []) handle_list_conversations
    ∷ entry get_method (fixed (text "conversations") ∷ param ∷ []) handle_get_conversation
    ∷ entry get_method (fixed (text "weeks") ∷ []) handle_list_weeks
    ∷ entry post_method (fixed (text "weeks") ∷ []) handle_create_week
    ∷ entry get_method (fixed (text "weeks") ∷ fixed (text "current") ∷ []) handle_current_week
    ∷ entry get_method (fixed (text "weeks") ∷ param ∷ []) handle_get_week
    ∷ entry get_method (fixed (text "weeks") ∷ fixed (text "id") ∷ param ∷ []) handle_get_week_by_id
    ∷ entry patch_method (fixed (text "weeks") ∷ fixed (text "id") ∷ param ∷ []) handle_patch_week
    ∷ entry delete_method (fixed (text "weeks") ∷ fixed (text "id") ∷ param ∷ []) handle_delete_week
    ∷ entry post_method
        (fixed (text "weeks") ∷ fixed (text "id") ∷ param ∷ fixed (text "clone") ∷ [])
        handle_clone_week
    ∷ entry get_method
        (fixed (text "weeks") ∷ fixed (text "id") ∷ param ∷ fixed (text "conversation") ∷ [])
        handle_get_week_conversation
    ∷ entry delete_method
        (fixed (text "weeks") ∷ fixed (text "id") ∷ param ∷ fixed (text "conversations") ∷ [])
        handle_delete_week_conversations
    ∷ entry put_method
        (fixed (text "weeks") ∷ fixed (text "id") ∷ param ∷ fixed (text "retrospective") ∷ [])
        handle_put_week_retrospective
    ∷ entry put_method
        (fixed (text "dinners") ∷ fixed (text "id") ∷ param ∷ fixed (text "rating") ∷ [])
        handle_put_dinner_rating
    ∷ entry delete_method
        (fixed (text "dinners") ∷ fixed (text "id") ∷ param ∷ fixed (text "rating") ∷ [])
        handle_delete_dinner_rating
    ∷ entry get_method (fixed (text "settings") ∷ []) handle_get_settings
    ∷ entry patch_method (fixed (text "settings") ∷ []) handle_patch_settings
    ∷ entry get_method (fixed (text "providers") ∷ []) handle_list_providers
    ∷ entry patch_method (fixed (text "providers") ∷ param ∷ []) handle_patch_provider
    ∷ entry post_method (fixed (text "providers") ∷ fixed (text "test") ∷ []) handle_test_provider
    ∷ entry get_method (fixed (text "preferences") ∷ []) handle_list_preferences
    ∷ entry put_method (fixed (text "preferences") ∷ param ∷ []) handle_put_preference
    ∷ entry delete_method (fixed (text "preferences") ∷ param ∷ []) handle_delete_preference
    ∷ entry get_method (fixed (text "usage") ∷ fixed (text "summary") ∷ []) handle_get_usage_summary
    ∷ entry get_method (fixed (text "backups") ∷ []) handle_list_backups
    ∷ entry post_method (fixed (text "backups") ∷ []) handle_create_backup
    ∷ entry get_method (fixed (text "backups") ∷ param ∷ fixed (text "download") ∷ [])
        handle_download_backup
    ∷ entry delete_method (fixed (text "backups") ∷ param ∷ []) handle_delete_backup
    ∷ entry get_method (fixed (text "backup-config") ∷ []) handle_get_backup_config
    ∷ entry patch_method (fixed (text "backup-config") ∷ []) handle_patch_backup_config
    ∷ []

abbrev pub same_method : Method → Method → Bool
same_method get_method get_method = true
same_method post_method post_method = true
same_method put_method put_method = true
same_method patch_method patch_method = true
same_method delete_method delete_method = true
same_method _ _ = false

abbrev pub fits_each : List Segment → List Text → Bool
fits_each [] [] = true
fits_each (fixed w ∷ pattern) (s ∷ path) = s === w && fits_each pattern path
fits_each (param ∷ pattern) (s ∷ path) = not (is_empty s) && fits_each pattern path
fits_each _ _ = false

unfoldable pub fits : List Segment → List Text → Bool
fits pattern path = length pattern == length path && fits_each pattern path

abbrev pub below_api : List Text → List Text
below_api (root ∷ api ∷ path) = if is_empty root && api === text "api" then path else []
below_api _ = []

unfoldable pub handlers_in : Method → List Text → List Entry → List Handler
handlers_in m path [] = []
handlers_in m path (e ∷ es) =
    let rest = handlers_in m path es in
    if same_method m e.method && fits e.pattern path then e.handler ∷ rest else rest

-- The handlers of the routes that a request fits.
unfoldable pub handlers : Request → List Handler
unfolding handlers_in fits
handlers q = handlers_in q.method (below_api (split b'/' q.path)) routes
