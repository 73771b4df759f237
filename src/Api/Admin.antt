-- ===== src/Api/Admin.antt =====
-- The data of web/src/lib/api.ts for preferences, usage, versions, updates, setup and backups.
use veckomenyn.Base.{ℕ, Bool, Option, List, Text}

pub record Preference : Type 0 where
  pub category : Text
  pub body_md : Text
  pub updated_at : Text

pub record UsageTotals (N : Type 0) : Type 0 where
  pub cost_usd : N
  pub input_tokens : ℕ
  pub cache_creation_input_tokens : ℕ
  pub cache_read_input_tokens : ℕ
  pub output_tokens : ℕ
  pub calls : ℕ

pub record UsageDay (N : Type 0) : Type 0 where
  pub date : Text
  pub cost_usd : N
  pub calls : ℕ

pub record UsageModel (N : Type 0) : Type 0 where
  pub totals : UsageTotals N
  pub model : Text

pub record UsageWeek (N : Type 0) : Type 0 where
  pub week_id : ℕ
  pub iso_week : Text
  pub cost_usd : N
  pub calls : ℕ

pub record UsageConversation (N : Type 0) : Type 0 where
  pub conversation_id : ℕ
  pub title : Text
  pub week_id : Option ℕ
  pub iso_week : Option Text
  pub cost_usd : N
  pub calls : ℕ
  pub last_used_at : Text

pub record UsageSummary (N : Type 0) : Type 0 where
  pub window_days : ℕ
  pub total : UsageTotals N
  pub by_day : List (UsageDay N)
  pub by_model : List (UsageModel N)
  pub by_week : List (UsageWeek N)
  pub recent_conversations : List (UsageConversation N)

pub record VersionInfo : Type 0 where
  pub version : Text
  pub commit : Text
  pub built_at : Text

pub record UpdateStatus : Type 0 where
  pub current : Text
  pub latest : Text
  pub has_update : Bool
  pub url : Text
  pub can_apply : Bool
  pub auto_enabled : Bool

pub record UpdateConfig : Type 0 where
  pub auto_update_enabled : Bool
  pub can_apply : Bool

pub record SetupStatus : Type 0 where
  pub setup_complete : Bool
  pub has_llm_provider : Bool
  pub has_preferences : Bool
  pub has_family_members : Bool

pub data BackupReason : Type 0 where
  pre_migration manual nightly unknown : BackupReason

pub record Backup : Type 0 where
  pub filename : Text
  pub reason : BackupReason
  pub label : Text
  pub size_bytes : ℕ
  pub created_at : Text

pub record BackupConfig : Type 0 where
  pub nightly_enabled : Bool
  pub nightly_keep : ℕ
  pub can_write : Bool

pub record BackupConfigPatch : Type 0 where
  pub nightly_enabled : Option Bool
  pub nightly_keep : Option ℕ
  pub can_write : Option Bool
