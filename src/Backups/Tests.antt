-- ===== src/Backups/Tests.antt =====
-- Sizes and sections at concrete inputs.
use veckomenyn.Base.{◌≡◌, refl, none, some, text, show}
use veckomenyn.Api.Http.{returns, throws, done, negsuc}
use veckomenyn.Backups.{Backups, idle, format_size, on_refresh, on_taken, take_backup, change_keep}

abbrev section : Backups
section = record { backups = none; cfg = none; error = some (text "old"); busy = idle }

format_size_small : format_size 1023 ≡ text "1023 B"
unfolding format_size show
format_size_small = refl

format_size_half : format_size 1536 ≡ text "1.5 KB"
unfolding format_size show
format_size_half = refl

-- The list cannot be loaded after the backup was taken.
on_taken_unread :
    (on_taken (returns done) (throws (text "offline")) (take_backup section)).error
    ≡ some (text "offline")
unfolding on_taken on_refresh
on_taken_unread = refl

change_keep_negative : change_keep (some (negsuc 0)) section ≡ (section, none)
unfolding change_keep
change_keep_negative = refl
