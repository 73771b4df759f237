-- ===== src/Backups.antt =====
-- web/src/components/BackupsSection.tsx and web/src/components/UpdatesSection.tsx: the two sections of the
-- settings that take a request at a time, and how the size of a backup is written.
pub mod Sizes
mod Tests
use veckomenyn.Base.{
  ℕ, zero, suc, ◌+◌, ◌*◌, ◌/◌, ◌%◌, Bool, true, false, ltb, Option, none, some, List, [], ◌∷◌, ◌++◌,
  Text, text, show, if◌then◌else◌,
}
use veckomenyn.Api.Http.{Outcome, returns, throws, Done, ℤ, pos, negsuc}
use veckomenyn.Api.Admin.{Backup, BackupConfig, BackupConfigPatch, UpdateStatus, UpdateConfig}

pub data Busy : Type 0 where
  idle taking saving : Busy

pub record Backups : Type 0 where
  pub backups : Option (List Backup)
  pub cfg : Option BackupConfig
  pub error : Option Text
  pub busy : Busy

-- `refresh`: the two requests, or the message of the first that fails
unfoldable pub on_refresh : Outcome (List Backup × BackupConfig) → Backups → Backups
on_refresh (returns (list, c)) s = record s { backups = some list; cfg = some c; error = none }
on_refresh (throws message) s = record s { error = some message }

-- `onTake`, up to its request
abbrev pub take_backup : Backups → Backups
take_backup s = record s { busy = taking; error = none }

-- The rest of `onTake`: the answer, and that of the refresh behind it.
unfoldable pub on_taken : Outcome Done → Outcome (List Backup × BackupConfig) → Backups → Backups
unfolding on_refresh
on_taken (returns _) refreshed s = record (on_refresh refreshed s) { busy = idle }
on_taken (throws message) refreshed s = record s { error = some message; busy = idle }

-- `onDelete`, up to its request; `confirmed` is the answer of `confirm`.
abbrev pub delete_backup : Bool → Backups → Backups
delete_backup confirmed s = if confirmed then record s { error = none } else s

-- The rest of `onDelete`.
unfoldable pub on_deleted : Outcome Done → Outcome (List Backup × BackupConfig) → Backups → Backups
unfolding on_refresh
on_deleted (returns _) refreshed s = on_refresh refreshed s
on_deleted (throws message) refreshed s = record s { error = some message }

abbrev save_config : BackupConfigPatch → Backups → Backups × Option BackupConfigPatch
save_config patch s = (record s { busy = saving; error = none }, some patch)

-- `onToggleNightly`, with its request
abbrev pub toggle_nightly : Bool → Backups → Backups × Option BackupConfigPatch
toggle_nightly enabled =
    save_config (record { nightly_enabled = some enabled; nightly_keep = none; can_write = none })

-- `onChangeKeep`, with its request; `none` is NaN.
unfoldable pub change_keep : Option ℤ → Backups → Backups × Option BackupConfigPatch
change_keep (some (pos (suc n))) s =
    save_config (record { nightly_enabled = none; nightly_keep = some (suc n); can_write = none }) s
change_keep keep s = (s, none)

-- The rest of `onToggleNightly` and `onChangeKeep`.
unfoldable pub on_saved : Outcome BackupConfig → Backups → Backups
on_saved (returns next) s = record s { cfg = some next; busy = idle }
on_saved (throws message) s = record s { error = some message; busy = idle }

-- `toFixed`, with one and with two digits, of `n / d`: the nearest one, the greater of two
abbrev pub scaled : ℕ → ℕ → ℕ → ℕ
scaled scale n d = (2 * scale * n + d) / (2 * d)

abbrev pub fixed_one : ℕ → Text
fixed_one t = show (t / 10) ++ 46 ∷ show (t % 10)

abbrev pub fixed_two : ℕ → Text
fixed_two t = show (t / 100) ++ 46 ∷ (show (t / 10 % 10) ++ show (t % 10))

abbrev pub kib : ℕ
kib = 1024

abbrev pub mib : ℕ
mib = 1024 * 1024

abbrev pub gib : ℕ
gib = 1024 * 1024 * 1024

-- `formatSize`
unfoldable pub format_size : ℕ → Text
format_size bytes =
    if ltb bytes kib
    then show bytes ++ text " B"
    else if ltb bytes mib
    then fixed_one (scaled 10 bytes kib) ++ text " KB"
    else if ltb bytes gib
    then fixed_one (scaled 10 bytes mib) ++ text " MB"
    else fixed_two (scaled 100 bytes gib) ++ text " GB"

-- `UpdatesSection`; `refreshes` counts the events that it dispatches to the banner.
pub record Updates : Type 0 where
  pub cfg : Option UpdateConfig
  pub error : Option Text
  pub busy : Bool
  pub checking : Bool
  pub check_result : Option UpdateStatus
  pub refreshes : ℕ

-- `onToggle`, up to its request, and the rest
abbrev pub toggle : Updates → Updates
toggle s = record s { busy = true; error = none }

unfoldable pub on_toggled : Outcome UpdateConfig → Updates → Updates
on_toggled (returns next) s = record s { cfg = some next; busy = false }
on_toggled (throws message) s = record s { error = some message; busy = false }

-- `onCheck`, up to its request, and the rest
abbrev pub check : Updates → Updates
check s = record s { checking = true; error = none; check_result = none }

unfoldable pub on_checked : Outcome UpdateStatus → Updates → Updates
on_checked (returns status) s = record s {
  check_result = some status;
  refreshes = s.refreshes + 1;
  checking = false;
}
on_checked (throws message) s = record s { error = some message; checking = false }
