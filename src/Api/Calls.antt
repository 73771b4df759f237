-- ===== src/Api/Calls.antt =====
-- The calls of the server that the functions of web/src/lib/api.ts make, as one type.
use veckomenyn.Base.{ℕ, Bool, Option, List, Text}
use veckomenyn.Api.Http.{Exchange, Done}
use veckomenyn.Api.Types.{
  DinnerRating, WeekCreate, WeekPatch, WeekDetail, WeekSummary, Dialogue, Conversation,
  HouseholdSettings, SettingsPatch, Provider, ProvidersEnvelope, ProviderPatch, TestProviderResult,
}
use veckomenyn.Api.Admin.{
  Preference, UsageSummary, VersionInfo, UpdateStatus, UpdateConfig, SetupStatus, Backup,
  BackupConfig, BackupConfigPatch,
}
use veckomenyn.Api.Weeks.{
  set_dinner_rating, clear_dinner_rating, set_week_retrospective, WeekList, list_weeks, delete_week,
  get_week_conversation, delete_week_conversations, ConversationList, list_conversations,
  get_conversation, get_current_week, create_week, get_week, get_week_by_id, clone_week, patch_week,
  ChatRequest, stream_chat,
}
use veckomenyn.Api.Household.{
  get_settings, patch_settings, list_providers, patch_provider, test_provider, PreferenceList,
  list_preferences, save_preference, delete_preference, get_usage_summary, get_version, get_updates,
  check_updates, apply_update, get_update_config, patch_update_config, get_setup_status,
  seed_preferences, BackupList, list_backups, take_backup, delete_backup, get_backup_config,
  patch_backup_config,
}

pub data Call : Type 0 where
  on_set_dinner_rating : ℕ → DinnerRating → Text → Call
  on_clear_dinner_rating : ℕ → Call
  on_set_week_retrospective : ℕ → Text → Call
  on_list_weeks : Call
  on_get_current_week : Call
  on_create_week : WeekCreate → Call
  on_get_week : Text → Call
  on_get_week_by_id : ℕ → Call
  on_clone_week : ℕ → Option Text → Call
  on_delete_week : ℕ → Call
  on_patch_week : ℕ → WeekPatch → Call
  on_get_settings : Call
  on_patch_settings : SettingsPatch → Call
  on_list_providers : Call
  on_patch_provider : Text → ProviderPatch → Call
  on_test_provider : Call
  on_list_preferences : Call
  on_save_preference : Text → Text → Call
  on_delete_preference : Text → Call
  on_list_conversations : Call
  on_get_conversation : ℕ → Call
  on_get_week_conversation : ℕ → Call
  on_delete_week_conversations : ℕ → Call
  on_get_usage_summary : Call
  on_get_version : Call
  on_get_updates : Call
  on_check_updates : Call
  on_apply_update : Call
  on_get_update_config : Call
  on_patch_update_config : Bool → Call
  on_get_setup_status : Call
  on_seed_preferences : Call
  on_list_backups : Call
  on_take_backup : Call
  on_delete_backup : Text → Call
  on_get_backup_config : Call
  on_patch_backup_config : BackupConfigPatch → Call
  on_stream_chat : ChatRequest → Call

-- The type of the JSON that a call is answered with; for `streamChat` the chunks of the body, which may
-- be missing.
abbrev pub Answer : Type 0 → Call → Type 0
Answer N (on_set_dinner_rating d x n) = Done
Answer N (on_clear_dinner_rating d) = Done
Answer N (on_set_week_retrospective w n) = Done
Answer N on_list_weeks = WeekList
Answer N on_get_current_week = WeekDetail N
Answer N (on_create_week i) = WeekDetail N
Answer N (on_get_week iso) = WeekDetail N
Answer N (on_get_week_by_id w) = WeekDetail N
Answer N (on_clone_week w o) = WeekDetail N
Answer N (on_delete_week w) = Done
Answer N (on_patch_week w p) = WeekDetail N
Answer N on_get_settings = HouseholdSettings
Answer N (on_patch_settings p) = HouseholdSettings
Answer N on_list_providers = ProvidersEnvelope
Answer N (on_patch_provider k p) = Provider
Answer N on_test_provider = TestProviderResult
Answer N on_list_preferences = PreferenceList
Answer N (on_save_preference k b) = Preference
Answer N (on_delete_preference k) = Done
Answer N on_list_conversations = ConversationList
Answer N (on_get_conversation w) = Dialogue
Answer N (on_get_week_conversation w) = Dialogue
Answer N (on_delete_week_conversations w) = Done
Answer N on_get_usage_summary = UsageSummary N
Answer N on_get_version = VersionInfo
Answer N on_get_updates = UpdateStatus
Answer N on_check_updates = UpdateStatus
Answer N on_apply_update = Done
Answer N on_get_update_config = UpdateConfig
Answer N (on_patch_update_config b) = UpdateConfig
Answer N on_get_setup_status = SetupStatus
Answer N on_seed_preferences = ℕ
Answer N on_list_backups = BackupList
Answer N on_take_backup = Backup
Answer N (on_delete_backup k) = Done
Answer N on_get_backup_config = BackupConfig
Answer N (on_patch_backup_config p) = BackupConfig
Answer N (on_stream_chat c) = Option (List Text)

abbrev pub Result : Type 0 → Call → Type 0
Result N (on_set_dinner_rating d x n) = Done
Result N (on_clear_dinner_rating d) = Done
Result N (on_set_week_retrospective w n) = Done
Result N on_list_weeks = List WeekSummary
Result N on_get_current_week = Option (WeekDetail N)
Result N (on_create_week i) = WeekDetail N
Result N (on_get_week iso) = WeekDetail N
Result N (on_get_week_by_id w) = WeekDetail N
Result N (on_clone_week w o) = WeekDetail N
Result N (on_delete_week w) = Done
Result N (on_patch_week w p) = WeekDetail N
Result N on_get_settings = HouseholdSettings
Result N (on_patch_settings p) = HouseholdSettings
Result N on_list_providers = ProvidersEnvelope
Result N (on_patch_provider k p) = Provider
Result N on_test_provider = TestProviderResult
Result N on_list_preferences = List Preference
Result N (on_save_preference k b) = Preference
Result N (on_delete_preference k) = Done
Result N on_list_conversations = List Conversation
Result N (on_get_conversation w) = Dialogue
Result N (on_get_week_conversation w) = Option Dialogue
Result N (on_delete_week_conversations w) = Done
Result N on_get_usage_summary = UsageSummary N
Result N on_get_version = VersionInfo
Result N on_get_updates = UpdateStatus
Result N on_check_updates = UpdateStatus
Result N on_apply_update = Done
Result N on_get_update_config = UpdateConfig
Result N (on_patch_update_config b) = UpdateConfig
Result N on_get_setup_status = SetupStatus
Result N on_seed_preferences = ℕ
Result N on_list_backups = List Backup
Result N on_take_backup = Backup
Result N (on_delete_backup k) = Done
Result N on_get_backup_config = BackupConfig
Result N (on_patch_backup_config p) = BackupConfig
Result N (on_stream_chat c) = List Text

abbrev pub exchange : (N : Type 0) → (Text → Text) → (c : Call) → Exchange (Answer N c) (Result N c)
exchange N encode (on_set_dinner_rating d x n) = set_dinner_rating d x n
exchange N encode (on_clear_dinner_rating d) = clear_dinner_rating d
exchange N encode (on_set_week_retrospective w n) = set_week_retrospective w n
exchange N encode on_list_weeks = list_weeks
exchange N encode on_get_current_week = get_current_week
exchange N encode (on_create_week i) = create_week i
exchange N encode (on_get_week iso) = get_week encode iso
exchange N encode (on_get_week_by_id w) = get_week_by_id w
exchange N encode (on_clone_week w o) = clone_week w o
exchange N encode (on_delete_week w) = delete_week w
exchange N encode (on_patch_week w p) = patch_week w p
exchange N encode on_get_settings = get_settings
exchange N encode (on_patch_settings p) = patch_settings p
exchange N encode on_list_providers = list_providers
exchange N encode (on_patch_provider k p) = patch_provider encode k p
exchange N encode on_test_provider = test_provider
exchange N encode on_list_preferences = list_preferences
exchange N encode (on_save_preference k b) = save_preference encode k b
exchange N encode (on_delete_preference k) = delete_preference encode k
exchange N encode on_list_conversations = list_conversations
exchange N encode (on_get_conversation w) = get_conversation w
exchange N encode (on_get_week_conversation w) = get_week_conversation w
exchange N encode (on_delete_week_conversations w) = delete_week_conversations w
exchange N encode on_get_usage_summary = get_usage_summary
exchange N encode on_get_version = get_version
exchange N encode on_get_updates = get_updates
exchange N encode on_check_updates = check_updates
exchange N encode on_apply_update = apply_update
exchange N encode on_get_update_config = get_update_config
exchange N encode (on_patch_update_config b) = patch_update_config b
exchange N encode on_get_setup_status = get_setup_status
exchange N encode on_seed_preferences = seed_preferences
exchange N encode on_list_backups = list_backups
exchange N encode on_take_backup = take_backup
exchange N encode (on_delete_backup k) = delete_backup encode k
exchange N encode on_get_backup_config = get_backup_config
exchange N encode (on_patch_backup_config p) = patch_backup_config p
exchange N encode (on_stream_chat c) = stream_chat c
