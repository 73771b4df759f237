-- ===== src/Api/Household.antt =====
-- The functions of web/src/lib/api.ts on settings, providers, preferences, usage, updates, setup and
-- backups. `encode` is `encodeURIComponent`.
use veckomenyn.Base.{
  ℕ, Bool, not, ◌&&◌, ◌==◌, none, some, List, [], ◌∷◌, ◌++◌, Text, text, if◌then◌else◌,
}
use veckomenyn.Api.Http.{
  string, strings, boolean, number, pos, Body, field, post_method, put_method, patch_method,
  delete_method, Exchange, returns, throws, Done, done, ok, with_status, with_text, only_text,
  json_or, done_or, get, send, map_outcome,
}
use veckomenyn.Api.Types.{
  Language, swedish, english, HouseholdSettings, SettingsPatch, Provider, ProvidersEnvelope,
  ProviderPatch, TestProviderResult,
}
use veckomenyn.Api.Admin.{
  Preference, UsageSummary, VersionInfo, UpdateStatus, UpdateConfig, SetupStatus, Backup,
  BackupConfig, BackupConfigPatch,
}

abbrev pub get_settings : Exchange HouseholdSettings HouseholdSettings
get_settings = get (text "/api/settings") (json_or (with_status (text "get settings")))

abbrev pub language_name : Language → Text
language_name swedish = text "sv"
language_name english = text "en"

abbrev pub settings_body : SettingsPatch → Body
settings_body p =
    field (text "default_dinners") (λ n. number (pos n)) p.default_dinners
    ++ (field (text "default_delivery_weekday") (λ n. number (pos n)) p.default_delivery_weekday
        ++ (field (text "default_order_offset_days") number p.default_order_offset_days
            ++ (field (text "default_servings") (λ n. number (pos n)) p.default_servings
                ++ (field (text "language") (λ l. string (language_name l)) p.language
                    ++ (field (text "llm_provider") string p.llm_provider
                        ++ field (text "notes_md") string p.notes_md)))))

abbrev pub patch_settings : SettingsPatch → Exchange HouseholdSettings HouseholdSettings
patch_settings patch =
    send patch_method (text "/api/settings") (some (settings_body patch))
      (json_or (with_text (text "patch settings")))

abbrev pub list_providers : Exchange ProvidersEnvelope ProvidersEnvelope
list_providers = get (text "/api/providers") (json_or (with_status (text "list providers")))

abbrev pub provider_body : ProviderPatch → Body
provider_body p = field (text "enabled") boolean p.enabled ++ field (text "config") strings p.config

abbrev pub patch_provider : (Text → Text) → Text → ProviderPatch → Exchange Provider Provider
patch_provider encode kind patch =
    send patch_method (text "/api/providers/" ++ encode kind) (some (provider_body patch))
      (json_or (with_text (text "patch provider")))

abbrev pub test_provider : Exchange TestProviderResult TestProviderResult
test_provider =
    send post_method (text "/api/providers/test") none
      (json_or (with_status (text "test provider")))

pub record PreferenceList : Type 0 where
  pub preferences : List Preference

abbrev pub list_preferences : Exchange PreferenceList (List Preference)
list_preferences =
    get (text "/api/preferences")
      (λ r. map_outcome (λ j. j.preferences) (json_or (with_status (text "list preferences")) r))

abbrev pub save_preference : (Text → Text) → Text → Text → Exchange Preference Preference
save_preference encode category body_md =
    send put_method (text "/api/preferences/" ++ encode category)
      (some ((text "body_md", string body_md) ∷ [])) (json_or (with_text (text "save preference")))

abbrev pub delete_preference : (Text → Text) → Text → Exchange Done Done
delete_preference encode category =
    send delete_method (text "/api/preferences/" ++ encode category) none
      (done_or (with_status (text "delete preference")))

abbrev pub get_usage_summary : {N : Type 0} → Exchange (UsageSummary N) (UsageSummary N)
get_usage_summary = get (text "/api/usage/summary") (json_or (with_status (text "usage summary")))

abbrev pub get_version : Exchange VersionInfo VersionInfo
get_version = get (text "/api/version") (json_or (with_status (text "version")))

abbrev pub get_updates : Exchange UpdateStatus UpdateStatus
get_updates = get (text "/api/updates") (json_or (with_status (text "updates")))

abbrev pub check_updates : Exchange UpdateStatus UpdateStatus
check_updates =
    send post_method (text "/api/updates/check") none (json_or (with_status (text "updates/check")))

abbrev pub apply_update : Exchange Done Done
apply_update =
    send post_method (text "/api/updates/apply") none
      (λ r. if not (ok r) && not (r.status == 202) then throws (only_text r) else returns done)

abbrev pub get_update_config : Exchange UpdateConfig UpdateConfig
get_update_config = get (text "/api/update-config") (json_or (with_status (text "update-config")))

abbrev pub patch_update_config : Bool → Exchange UpdateConfig UpdateConfig
patch_update_config auto_update_enabled =
    send patch_method (text "/api/update-config")
      (some ((text "auto_update_enabled", boolean auto_update_enabled) ∷ [])) (json_or only_text)

abbrev pub get_setup_status : Exchange SetupStatus SetupStatus
get_setup_status = get (text "/api/setup-status") (json_or (with_status (text "setup-status")))

-- The number of the preferences that were seeded.
abbrev pub seed_preferences : Exchange ℕ ℕ
seed_preferences = send post_method (text "/api/preferences/seed") none (json_or only_text)

pub record BackupList : Type 0 where
  pub backups : List Backup

abbrev pub list_backups : Exchange BackupList (List Backup)
list_backups =
    get (text "/api/backups")
      (λ r. map_outcome (λ j. j.backups) (json_or (with_status (text "backups")) r))

abbrev pub take_backup : Exchange Backup Backup
take_backup = send post_method (text "/api/backups") none (json_or only_text)

abbrev pub delete_backup : (Text → Text) → Text → Exchange Done Done
delete_backup encode filename =
    send delete_method (text "/api/backups/" ++ encode filename) none (done_or only_text)

abbrev pub backup_download_url : (Text → Text) → Text → Text
backup_download_url encode filename = text "/api/backups/" ++ (encode filename ++ text "/download")

abbrev pub get_backup_config : Exchange BackupConfig BackupConfig
get_backup_config = get (text "/api/backup-config") (json_or (with_status (text "backup-config")))

abbrev pub backup_config_body : BackupConfigPatch → Body
backup_config_body p =
    field (text "nightly_enabled") boolean p.nightly_enabled
    ++ (field (text "nightly_keep") (λ n. number (pos n)) p.nightly_keep
        ++ field (text "can_write") boolean p.can_write)

abbrev pub patch_backup_config : BackupConfigPatch → Exchange BackupConfig BackupConfig
patch_backup_config p =
    send patch_method (text "/api/backup-config") (some (backup_config_body p)) (json_or only_text)
