-- ===== src/I18n/Sv/Chat.antt =====
-- Swedish texts, web/src/i18n/sv.ts, lines 92-156.
use veckomenyn.Base.{List, [], ◌∷◌, Text, text}

abbrev pub sv_chat : List (Text × Text)
sv_chat =
    (text "settings.title", text "Hushållsinställningar")
    ∷ (text "settings.language", text "Språk")
    ∷ (text "settings.language_sv", text "Svenska")
    ∷ (text "settings.language_en", text "English")
    ∷ (text "settings.delivery_weekday", text "Leveransdag")
    ∷ (text "settings.delivery_weekday_hint", text "Vilken dag varorna brukar levereras.")
    ∷ (text "settings.order_offset", text "Beställningsförskjutning (dagar)")
    ∷ (
      text "settings.order_offset_hint",
      text "Negativt innebär att du beställer före leverans. -1 = dagen innan, 0 = samma dag.",
    )
    ∷ (text "settings.num_dinners", text "Antal middagar")
    ∷ (text "settings.num_dinners_hint", text "Standardlängd för en meny.")
    ∷ (text "settings.default_servings", text "Standardportioner")
    ∷ (text "settings.default_servings_hint", text "Antal personer per middag.")
    ∷ (text "settings.notes", text "Noteringar")
    ∷ (text "settings.save", text "Spara")
    ∷ (text "settings.saving", text "Sparar…")
    ∷ (text "settings.loading", text "Laddar…")
    ∷ (text "settings.close", text "Stäng")
    ∷ (text "settings.theme", text "Tema")
    ∷ (text "settings.theme_system", text "System")
    ∷ (text "settings.theme_light", text "Ljust")
    ∷ (text "settings.theme_dark", text "Mörkt")
    ∷ (text "topbar.theme", text "Tema")
    ∷ (text "weekday.monday", text "Måndag")
    ∷ (text "weekday.tuesday", text "Tisdag")
    ∷ (text "weekday.wednesday", text "Onsdag")
    ∷ (text "weekday.thursday", text "Torsdag")
    ∷ (text "weekday.friday", text "Fredag")
    ∷ (text "weekday.saturday", text "Lördag")
    ∷ (text "weekday.sunday", text "Söndag")
    ∷ (text "chat.title", text "Chatt")
    ∷ (text "chat.placeholder", text "Justera något…")
    ∷ (text "chat.send", text "Skicka")
    ∷ (text "chat.thinking", text "tänker…")
    ∷ (text "chat.deliberating.pondering", text "funderar")
    ∷ (text "chat.deliberating.simmering", text "sjuder tankar")
    ∷ (text "chat.deliberating.tasting", text "smakar av")
    ∷ (text "chat.deliberating.chopping", text "hackar idéer")
    ∷ (text "chat.deliberating.plating", text "lägger upp ett svar")
    ∷ (text "chat.deliberating.cookbook", text "slår i kokboken")
    ∷ (text "chat.deliberating.marinating", text "marinerar tankarna")
    ∷ (text "chat.deliberating.whisking", text "vispar ihop ett svar")
    ∷ (text "chat.deliberating.browning", text "bryner smöret")
    ∷ (text "chat.deliberating.pantry", text "rotar i skafferiet")
    ∷ (text "chat.deliberating.kneading", text "knådar degen")
    ∷ (text "chat.deliberating.garnishing", text "garnerar tallriken")
    ∷ (text "chat.deliberating.watched_pot", text "väntar på att vattnet kokar")
    ∷ (text "chat.cancelled", text "Avbruten.")
    ∷ (text "chat.clear", text "Rensa")
    ∷ (text "chat.clear_confirm", text "Rensa veckans chatthistorik? Går inte att ångra.")
    ∷ (
      text "chat.empty",
      text
          "Fråga vad som helst, t.ex. ”gör tisdag vegetarisk”, ”Noah tyckte inte om koriander”, ”gör om veckan”. Knapparna på menyn går också via chatten.",
    )
    ∷ (text "calendar.today", text "Idag")
    ∷ (text "calendar.clear", text "Rensa")
    ∷ (text "calendar.prev_month", text "Föregående månad")
    ∷ (text "calendar.next_month", text "Nästa månad")
    ∷ (text "topbar.preferences", text "Preferenser")
    ∷ []
