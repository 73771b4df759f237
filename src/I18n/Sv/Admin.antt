-- ===== src/I18n/Sv/Admin.antt =====
-- Swedish texts, web/src/i18n/sv.ts, lines 253-381.
use veckomenyn.Base.{List, [], ◌∷◌, Text, text}

abbrev pub sv_admin : List (Text × Text)
sv_admin =
    (text "toast.dismiss", text "Stäng")
    ∷ (text "toast.retry", text "Försök igen")
    ∷ (text "toast.save_failed", text "Kunde inte spara")
    ∷ (text "toast.save_failed_retrying", text "Kunde inte spara; försöker igen…")
    ∷ (text "toast.changes_saved", text "Sparat")
    ∷ (text "toast.week_deleted", text "Vecka borttagen")
    ∷ (text "toast.network_error", text "Nätverksfel")
    ∷ (text "toast.unsaved_changes", text "Återblicken har inte sparats än. Lämna ändå?")
    ∷ (text "rating.how_was_it", text "Hur blev den?")
    ∷ (text "rating.your_verdict", text "Omdöme:")
    ∷ (text "rating.loved", text "Älskade")
    ∷ (text "rating.liked", text "Gick bra")
    ∷ (text "rating.meh", text "Sådär")
    ∷ (text "rating.disliked", text "Nej")
    ∷ (text "rating.clear", text "Rensa")
    ∷ (
      text "rating.notes_placeholder",
      text "Vad tyckte ni? (för salt, barnen åt inte, perfekt till lunch dagen efter…)",
    )
    ∷ (
      text "retro.hint",
      text
          "Pacing, portionsstorlekar, mängder, allmän vibe. Allt som inte fångas av per-middags-betygen.",
    )
    ∷ (
      text "retro.placeholder",
      text
          "Tung vecka med mycket röd köttfärs, blanda in mer fisk nästa. Porchettan räckte till tre dagar.",
    )
    ∷ (text "usage.title", text "Användning & kostnad")
    ∷ (text "usage.subtitle", text "Senaste 30 dagarna")
    ∷ (text "usage.close", text "Stäng")
    ∷ (text "usage.loading", text "Laddar…")
    ∷ (text "usage.empty", text "Inga anrop registrerade än.")
    ∷ (text "usage.total_cost", text "Total kostnad")
    ∷ (text "usage.total_calls", text "Modellanrop")
    ∷ (text "usage.total_input", text "Indata (tokens)")
    ∷ (text "usage.total_output", text "Utdata (tokens)")
    ∷ (text "usage.total_cache_write", text "Cache-skrivningar")
    ∷ (text "usage.total_cache_read", text "Cache-läsningar")
    ∷ (text "usage.cache_hit_rate", text "Cache-träffar")
    ∷ (text "usage.cache_hit_hint", text "Andel indata som lästes från cache.")
    ∷ (text "usage.by_model", text "Per modell")
    ∷ (text "usage.by_week", text "Per plan")
    ∷ (text "usage.by_day", text "Per dag")
    ∷ (text "usage.recent_conversations", text "Dyraste konversationer")
    ∷ (text "usage.col.model", text "Modell")
    ∷ (text "usage.col.calls", text "Anrop")
    ∷ (text "usage.col.cost", text "Kostnad")
    ∷ (text "usage.col.input", text "In")
    ∷ (text "usage.col.cache_write", text "Cache (skriv)")
    ∷ (text "usage.col.cache_read", text "Cache (läs)")
    ∷ (text "usage.col.output", text "Ut")
    ∷ (text "usage.col.plan", text "Plan")
    ∷ (text "usage.col.conversation", text "Konversation")
    ∷ (text "usage.col.date", text "Datum")
    ∷ (text "usage.open", text "Öppna användningsrapport")
    ∷ (text "backups.title", text "Säkerhetskopior")
    ∷ (
      text "backups.subtitle",
      text
          "Automatisk säkerhetskopia före varje uppgradering, plus valfri nattlig dump. Filerna ligger i ./backups på hosten och överlever `docker compose down -v`.",
    )
    ∷ (text "backups.nightly", text "Nattlig automatisk säkerhetskopia")
    ∷ (
      text "backups.nightly_hint",
      text "Tar en pg_dump var 24:e timme. Förmigreringskopior körs alltid.",
    )
    ∷ (
      text "backups.nightly_disabled",
      text
          "pg_dump finns inte i den här miljön, så schemalagda säkerhetskopior kan inte aktiveras.",
    )
    ∷ (text "backups.keep", text "Behåll senaste")
    ∷ (text "backups.keep_unit", text "nattliga kopior")
    ∷ (text "backups.take_now", text "Ta säkerhetskopia nu")
    ∷ (text "backups.taking", text "Sparar…")
    ∷ (text "backups.empty", text "Inga säkerhetskopior än.")
    ∷ (text "backups.col.taken", text "Skapad")
    ∷ (text "backups.col.reason", text "Orsak")
    ∷ (text "backups.col.size", text "Storlek")
    ∷ (text "backups.reason.pre-migration", text "Förmigrering")
    ∷ (text "backups.reason.manual", text "Manuell")
    ∷ (text "backups.reason.nightly", text "Nattlig")
    ∷ (text "backups.download", text "Ladda ner")
    ∷ (text "backups.delete", text "Ta bort")
    ∷ (
      text "backups.delete_confirm",
      text "Ta bort den här säkerhetskopian? Det går inte att ångra.",
    )
    ∷ (
      text "backups.restore_hint",
      text
          "Återställ: streama den nedladdade filen till pg_restore, t.ex. `podman compose exec -T db pg_restore --clean --if-exists -U veckomenyn -d veckomenyn < din.dump`.",
    )
    ∷ (text "update.available", text "Uppdatering tillgänglig: v{version}")
    ∷ (text "update.notes", text "Versionsanteckningar")
    ∷ (text "update.compare", text "Vad har ändrats")
    ∷ (text "update.copy_command", text "Kopiera uppgraderingskommando")
    ∷ (text "update.copied", text "Kopierat")
    ∷ (text "update.dismiss", text "Stäng")
    ∷ (text "update.apply", text "Uppdatera nu")
    ∷ (text "update.applying", text "Uppdaterar…")
    ∷ (text "update.waiting", text "Väntar på ny version…")
    ∷ (
      text "update.apply_timeout",
      text "Uppdateringen blev inte klar i tid. Kolla loggarna för containern.",
    )
    ∷ (text "update.success", text "Uppdaterad från v{from} till v{to}.")
    ∷ (text "update.section_title", text "Uppdateringar")
    ∷ (
      text "update.section_subtitle",
      text
          "Knappen \"Uppdatera nu\" i bannern fungerar alltid när en uppdatering finns. Slå på denna för att även köra uppdateringar automatiskt en gång per dygn.",
    )
    ∷ (text "update.auto_label", text "Uppdatera automatiskt")
    ∷ (
      text "update.auto_hint",
      text
          "Kontrollerar varje timme; om en nyare version finns startas appen om med den nya imagen.",
    )
    ∷ (
      text "update.auto_unavailable",
      text "Automatiska uppdateringar kräver Watchtower-sidecar. Se distributionsdokumentationen.",
    )
    ∷ (text "update.check_now", text "Sök efter uppdateringar")
    ∷ (text "update.checking", text "Kollar…")
    ∷ (text "update.up_to_date", text "Du har senaste versionen (v{version}).")
    ∷ (text "update.found", text "Uppdatering tillgänglig: v{version}.")
    ∷ (text "setup.welcome_title", text "Välkommen till Veckomenyn")
    ∷ (
      text "setup.welcome_body",
      text
          "Veckomenyn planerar veckans middagar och bygger inköpslistan. Två snabba steg och du är igång.",
    )
    ∷ (text "setup.lan_warning_title", text "Kör på ditt hemnätverk")
    ∷ (
      text "setup.lan_warning_body",
      text
          "Det finns ingen inloggning. Alla som når URL:en kan läsa dina data och förbruka ditt Anthropic-saldo. Kör på ett betrott LAN eller bakom Tailscale / VPN.",
    )
    ∷ (text "setup.next", text "Fortsätt")
    ∷ (text "setup.back", text "Tillbaka")
    ∷ (text "setup.skip", text "Hoppa över")
    ∷ (text "setup.finish", text "Öppna Veckomenyn")
    ∷ (text "setup.step", text "Steg {n} av {total}")
    ∷ (text "setup.api_key_title", text "Lägg till din Anthropic-API-nyckel")
    ∷ (
      text "setup.api_key_body",
      text
          "Veckomenyn använder Claude för menyplanering och kundvagn. Nyckeln krypteras i databasen med en huvudnyckel appen genererar åt dig.",
    )
    ∷ (text "setup.api_key_placeholder", text "sk-ant-…")
    ∷ (text "setup.api_key_help", text "Hämta en nyckel på console.anthropic.com")
    ∷ (text "setup.api_key_save", text "Spara och fortsätt")
    ∷ (text "setup.api_key_saving", text "Sparar…")
    ∷ (text "setup.seed_title", text "Importera mallpreferenser")
    ∷ (
      text "setup.seed_body",
      text
          "Valfritt. Läser in anonymiserade mallar för matlagningsstil, familjerutiner, inköpskällor och inköpsregler. Redigera senare under Preferenser. Hoppa över om du hellre börjar tomt.",
    )
    ∷ (text "setup.seed_button", text "Importera preferenser")
    ∷ (text "setup.seed_seeding", text "Importerar…")
    ∷ (text "setup.seed_done", text "Importerade {n} filer")
    ∷ []
