-- ===== src/I18n/En/Admin.antt =====
-- English texts, web/src/i18n/en.ts, lines 251-377.
use veckomenyn.Base.{List, [], ◌∷◌, Text, text}

abbrev pub en_admin : List (Text × Text)
en_admin =
    (text "toast.dismiss", text "Dismiss")
    ∷ (text "toast.retry", text "Retry")
    ∷ (text "toast.save_failed", text "Save failed")
    ∷ (text "toast.save_failed_retrying", text "Save failed; retrying…")
    ∷ (text "toast.changes_saved", text "Changes saved")
    ∷ (text "toast.week_deleted", text "Week deleted")
    ∷ (text "toast.network_error", text "Network error")
    ∷ (text "toast.unsaved_changes", text "Retrospective hasn't saved yet. Leave anyway?")
    ∷ (text "rating.how_was_it", text "How was it?")
    ∷ (text "rating.your_verdict", text "Verdict:")
    ∷ (text "rating.loved", text "Loved")
    ∷ (text "rating.liked", text "Liked")
    ∷ (text "rating.meh", text "Meh")
    ∷ (text "rating.disliked", text "No")
    ∷ (text "rating.clear", text "Clear")
    ∷ (
      text "rating.notes_placeholder",
      text "What did you think? (too salty, kids wouldn't eat it, perfect for lunch next day…)",
    )
    ∷ (
      text "retro.hint",
      text
          "Pacing, portion sizes, overall balance. Whatever the per-dinner verdicts don't already capture.",
    )
    ∷ (
      text "retro.placeholder",
      text
          "Heavy on red meat this week, mix in more fish next. The porchetta stretched to three days.",
    )
    ∷ (text "usage.title", text "Usage & cost")
    ∷ (text "usage.subtitle", text "Last 30 days")
    ∷ (text "usage.close", text "Close")
    ∷ (text "usage.loading", text "Loading…")
    ∷ (text "usage.empty", text "No model calls recorded yet.")
    ∷ (text "usage.total_cost", text "Total cost")
    ∷ (text "usage.total_calls", text "Model calls")
    ∷ (text "usage.total_input", text "Input tokens")
    ∷ (text "usage.total_output", text "Output tokens")
    ∷ (text "usage.total_cache_write", text "Cache writes")
    ∷ (text "usage.total_cache_read", text "Cache reads")
    ∷ (text "usage.cache_hit_rate", text "Cache hit rate")
    ∷ (text "usage.cache_hit_hint", text "Share of input tokens served from cache.")
    ∷ (text "usage.by_model", text "By model")
    ∷ (text "usage.by_week", text "By plan")
    ∷ (text "usage.by_day", text "By day")
    ∷ (text "usage.recent_conversations", text "Top conversations")
    ∷ (text "usage.col.model", text "Model")
    ∷ (text "usage.col.calls", text "Calls")
    ∷ (text "usage.col.cost", text "Cost")
    ∷ (text "usage.col.input", text "Input")
    ∷ (text "usage.col.cache_write", text "Cache write")
    ∷ (text "usage.col.cache_read", text "Cache read")
    ∷ (text "usage.col.output", text "Output")
    ∷ (text "usage.col.plan", text "Plan")
    ∷ (text "usage.col.conversation", text "Conversation")
    ∷ (text "usage.col.date", text "Date")
    ∷ (text "usage.open", text "Open usage report")
    ∷ (text "backups.title", text "Backups")
    ∷ (
      text "backups.subtitle",
      text
          "Automatic snapshots before every upgrade, plus optional nightly dumps. Files live in ./backups on the host and survive `docker compose down -v`.",
    )
    ∷ (text "backups.nightly", text "Nightly automatic backup")
    ∷ (
      text "backups.nightly_hint",
      text "Takes a pg_dump every 24h. Pre-migration snapshots run regardless.",
    )
    ∷ (
      text "backups.nightly_disabled",
      text "pg_dump isn't available in this environment, so scheduled backups can't be enabled.",
    )
    ∷ (text "backups.keep", text "Keep last")
    ∷ (text "backups.keep_unit", text "nightly snapshots")
    ∷ (text "backups.take_now", text "Take backup now")
    ∷ (text "backups.taking", text "Taking…")
    ∷ (text "backups.empty", text "No backups yet.")
    ∷ (text "backups.col.taken", text "Taken")
    ∷ (text "backups.col.reason", text "Reason")
    ∷ (text "backups.col.size", text "Size")
    ∷ (text "backups.reason.pre-migration", text "Pre-migration")
    ∷ (text "backups.reason.manual", text "Manual")
    ∷ (text "backups.reason.nightly", text "Nightly")
    ∷ (text "backups.download", text "Download")
    ∷ (text "backups.delete", text "Delete")
    ∷ (text "backups.delete_confirm", text "Delete this backup? This cannot be undone.")
    ∷ (
      text "backups.restore_hint",
      text
          "To restore: stream a downloaded file into pg_restore, e.g. `podman compose exec -T db pg_restore --clean --if-exists -U veckomenyn -d veckomenyn < your.dump`.",
    )
    ∷ (text "update.available", text "Update available: v{version}")
    ∷ (text "update.notes", text "Release notes")
    ∷ (text "update.compare", text "What changed")
    ∷ (text "update.copy_command", text "Copy upgrade command")
    ∷ (text "update.copied", text "Copied")
    ∷ (text "update.dismiss", text "Dismiss")
    ∷ (text "update.apply", text "Update now")
    ∷ (text "update.applying", text "Updating…")
    ∷ (text "update.waiting", text "Waiting for new version…")
    ∷ (
      text "update.apply_timeout",
      text "Update did not finish in time. Check your container's logs.",
    )
    ∷ (text "update.success", text "Updated from v{from} to v{to}.")
    ∷ (text "update.section_title", text "Updates")
    ∷ (
      text "update.section_subtitle",
      text
          "The Update now button in the banner is always available when an update is published. Toggle this on to also apply updates automatically once a day.",
    )
    ∷ (text "update.auto_label", text "Apply updates automatically")
    ∷ (
      text "update.auto_hint",
      text "Hourly check; if a newer version is published, restart with the new image.",
    )
    ∷ (
      text "update.auto_unavailable",
      text "Auto-update needs the Watchtower trigger sidecar. See deploy docs.",
    )
    ∷ (text "update.check_now", text "Check for updates")
    ∷ (text "update.checking", text "Checking…")
    ∷ (text "update.up_to_date", text "You're on the latest version (v{version}).")
    ∷ (text "update.found", text "Update available: v{version}.")
    ∷ (text "setup.welcome_title", text "Welcome to Veckomenyn")
    ∷ (
      text "setup.welcome_body",
      text
          "Veckomenyn plans your week of dinners and builds the grocery cart. Two short steps and you're in.",
    )
    ∷ (text "setup.lan_warning_title", text "Keep this on your home network")
    ∷ (
      text "setup.lan_warning_body",
      text
          "There is no authentication. Anyone who can reach this URL can read your data and spend your Anthropic balance. Run on a trusted LAN or behind Tailscale / VPN.",
    )
    ∷ (text "setup.next", text "Continue")
    ∷ (text "setup.back", text "Back")
    ∷ (text "setup.skip", text "Skip")
    ∷ (text "setup.finish", text "Open Veckomenyn")
    ∷ (text "setup.step", text "Step {n} of {total}")
    ∷ (text "setup.api_key_title", text "Add your Anthropic API key")
    ∷ (
      text "setup.api_key_body",
      text
          "Veckomenyn uses Claude for menu planning and cart building. The key is encrypted at rest with a master key the app generates for you.",
    )
    ∷ (text "setup.api_key_placeholder", text "sk-ant-…")
    ∷ (text "setup.api_key_help", text "Get a key at console.anthropic.com")
    ∷ (text "setup.api_key_save", text "Save and continue")
    ∷ (text "setup.api_key_saving", text "Saving…")
    ∷ (text "setup.seed_title", text "Seed starter preferences")
    ∷ (
      text "setup.seed_body",
      text
          "Optional. Loads anonymised templates for cooking style, family routines, sourcing, and shopping rules. Edit them later under Preferences. Skip if you'd rather start blank.",
    )
    ∷ (text "setup.seed_button", text "Seed preferences")
    ∷ (text "setup.seed_seeding", text "Seeding…")
    ∷ (text "setup.seed_done", text "Seeded {n} files")
    ∷ []
