-- ===== src/I18n/En/Chat.antt =====
-- English texts, web/src/i18n/en.ts, lines 90-154.
use veckomenyn.Base.{List, [], ◌∷◌, Text, text}

abbrev pub en_chat : List (Text × Text)
en_chat =
    (text "settings.title", text "Household defaults")
    ∷ (text "settings.language", text "Language")
    ∷ (text "settings.language_sv", text "Svenska")
    ∷ (text "settings.language_en", text "English")
    ∷ (text "settings.delivery_weekday", text "Delivery weekday")
    ∷ (text "settings.delivery_weekday_hint", text "Which day groceries usually arrive.")
    ∷ (text "settings.order_offset", text "Order offset (days)")
    ∷ (
      text "settings.order_offset_hint",
      text "Negative means you order before delivery. -1 = day before, 0 = same day.",
    )
    ∷ (text "settings.num_dinners", text "Number of dinners")
    ∷ (text "settings.num_dinners_hint", text "Default length of a menu.")
    ∷ (text "settings.default_servings", text "Default servings")
    ∷ (text "settings.default_servings_hint", text "People eating per dinner.")
    ∷ (text "settings.notes", text "Notes")
    ∷ (text "settings.save", text "Save")
    ∷ (text "settings.saving", text "Saving…")
    ∷ (text "settings.loading", text "Loading…")
    ∷ (text "settings.close", text "Close")
    ∷ (text "settings.theme", text "Theme")
    ∷ (text "settings.theme_system", text "System")
    ∷ (text "settings.theme_light", text "Light")
    ∷ (text "settings.theme_dark", text "Dark")
    ∷ (text "topbar.theme", text "Theme")
    ∷ (text "weekday.monday", text "Monday")
    ∷ (text "weekday.tuesday", text "Tuesday")
    ∷ (text "weekday.wednesday", text "Wednesday")
    ∷ (text "weekday.thursday", text "Thursday")
    ∷ (text "weekday.friday", text "Friday")
    ∷ (text "weekday.saturday", text "Saturday")
    ∷ (text "weekday.sunday", text "Sunday")
    ∷ (text "chat.title", text "Chat")
    ∷ (text "chat.placeholder", text "Tweak anything…")
    ∷ (text "chat.send", text "Send")
    ∷ (text "chat.thinking", text "thinking…")
    ∷ (text "chat.deliberating.pondering", text "pondering")
    ∷ (text "chat.deliberating.simmering", text "simmering ideas")
    ∷ (text "chat.deliberating.tasting", text "tasting options")
    ∷ (text "chat.deliberating.chopping", text "chopping possibilities")
    ∷ (text "chat.deliberating.plating", text "plating a response")
    ∷ (text "chat.deliberating.cookbook", text "consulting the cookbook")
    ∷ (text "chat.deliberating.marinating", text "marinating thoughts")
    ∷ (text "chat.deliberating.whisking", text "whisking up an answer")
    ∷ (text "chat.deliberating.browning", text "browning the butter")
    ∷ (text "chat.deliberating.pantry", text "raiding the pantry")
    ∷ (text "chat.deliberating.kneading", text "kneading the dough")
    ∷ (text "chat.deliberating.garnishing", text "garnishing the plate")
    ∷ (text "chat.deliberating.watched_pot", text "watching the pot")
    ∷ (text "chat.cancelled", text "Cancelled.")
    ∷ (text "chat.clear", text "Clear")
    ∷ (text "chat.clear_confirm", text "Clear this week's chat history? This can't be undone.")
    ∷ (
      text "chat.empty",
      text
          "Ask anything, e.g. \"make Tuesday vegetarian\", \"Noah didn't like the cilantro\", \"regenerate the week\". Actions on the menu also run through chat.",
    )
    ∷ (text "calendar.today", text "Today")
    ∷ (text "calendar.clear", text "Clear")
    ∷ (text "calendar.prev_month", text "Previous month")
    ∷ (text "calendar.next_month", text "Next month")
    ∷ (text "topbar.preferences", text "Preferences")
    ∷ []
