-- ===== src/I18n/Sv/Lifecycle.antt =====
-- Swedish texts, web/src/i18n/sv.ts, lines 158-251.
use veckomenyn.Base.{List, [], ◌∷◌, Text, text}

abbrev pub sv_lifecycle : List (Text × Text)
sv_lifecycle =
    (text "sidebar.history", text "Veckor")
    ∷ (text "sidebar.current", text "Aktuell vecka")
    ∷ (text "sidebar.empty", text "Inga veckor ännu.")
    ∷ (text "sidebar.dinners_short", text "middagar")
    ∷ (text "sidebar.new_week", text "Ny vecka")
    ∷ (text "sidebar.new_week_title", text "Planera en ny vecka")
    ∷ (text "sidebar.duplicate", text "Duplicera")
    ∷ (text "sidebar.delete", text "Ta bort")
    ∷ (
      text "sidebar.delete_confirm",
      text "Ta bort den här planen, inklusive middagar och kundvagn? Går inte att ångra.",
    )
    ∷ (text "duplicate.title", text "Duplicera plan")
    ∷ (text "duplicate.source_prefix", text "Källa:")
    ∷ (text "duplicate.start_date", text "Startdatum")
    ∷ (text "duplicate.new_period_prefix", text "Ny period:")
    ∷ (text "duplicate.confirm", text "Duplicera")
    ∷ (text "duplicate.cancel", text "Avbryt")
    ∷ (text "duplicate.close", text "Stäng")
    ∷ (text "duplicate.submitting", text "Duplicerar…")
    ∷ (text "lifecycle.current", text "Aktuell status")
    ∷ (text "lifecycle.build_cart", text "Bygg kundvagn")
    ∷ (
      text "lifecycle.build_cart_prompt",
      text
          "Bygg Willys-kundvagnen för planen som löper från {start} till {end}. Följ metoden i systemprompten: börja med willys_cart_get och lista vad som redan ligger i kundvagnen så jag kan bekräfta. Inkorporera befintliga varor i planen (rensa inte om jag inte säger 'rensa' eller 'reset'). Aggregera ingredienser tvärs över ALLA middagar (visa listan), dra ifrån det som redan finns i vagnen, välj en produkt per saknad ingrediens och skicka sedan deltat i ett enda willys_cart_add_many-anrop. Verifiera med willys_cart_get på slutet. När du är klar, sammanfatta vad du la till och markera planen som cart_built.",
    )
    ∷ (text "lifecycle.mark_cart_built", text "Markera kundvagn klar")
    ∷ (text "lifecycle.mark_ordered", text "Markera som beställd")
    ∷ (text "lifecycle.record_retrospective", text "Dokumentera återblick")
    ∷ (text "lifecycle.open_willys", text "Öppna Willys.se")
    ∷ (text "lifecycle.set_status", text "Ändra status")
    ∷ (
      text "lifecycle.retrospective_prompt",
      text
          "Dokumentera en återblick för veckan som löpte från {start} till {end}. Per-middags-betyg sparas redan direkt i kortet. Fråga istället om det som inte syns där: pacing, portionsstorlekar, mängder, om veckan kändes för tung eller obalanserad, och något specifikt att ta med till nästa vecka. Spara som veckoåterblick och uppdatera preferenser när en lärdom bör bli permanent.",
    )
    ∷ (text "cart.title", text "Inköpslista")
    ∷ (text "cart.code", text "Kod")
    ∷ (text "cart.product", text "Vara")
    ∷ (text "cart.qty", text "Antal")
    ∷ (text "cart.price", text "Pris")
    ∷ (text "cart.reason", text "Notering")
    ∷ (text "prefs.title", text "Preferenser")
    ∷ (
      text "prefs.subtitle",
      text "Matlagningsprinciper, familj, inköpsrutiner. Fri markdown per kategori.",
    )
    ∷ (text "prefs.pick_one", text "Välj en kategori till vänster.")
    ∷ (text "prefs.new_category", text "Ny kategori")
    ∷ (text "prefs.delete", text "Ta bort")
    ∷ (
      text "prefs.confirm_delete",
      text "Ta bort kategorin ”{category}”? Detta går inte att ångra.",
    )
    ∷ (text "integrations.title", text "Integrationer")
    ∷ (
      text "integrations.subtitle",
      text
          "API-nycklar och butikskonton. Hemligheter lagras i databasen; lämna ett maskat fält orört för att behålla befintligt värde.",
    )
    ∷ (text "integrations.enabled", text "Aktiverad")
    ∷ (text "integrations.category_llm", text "LLM-leverantör")
    ∷ (text "integrations.category_shopping", text "Handelsleverantör")
    ∷ (
      text "integrations.secret_set_hint",
      text "Lagrat. Skriv ett nytt värde för att ersätta det.",
    )
    ∷ (text "provider.api_key", text "API-nyckel")
    ∷ (text "provider.model", text "Modell")
    ∷ (text "provider.password", text "Lösenord")
    ∷ (text "provider.anthropic.name", text "Anthropic")
    ∷ (
      text "provider.anthropic.model_hint",
      text
          "Sonnet 4.6 är det balanserade standardvalet. Haiku är ~5x billigare men svagare på kreativ menyplanering. Opus är ~3-5x dyrare men bättre vid komplexa preferenser.",
    )
    ∷ (text "provider.anthropic.haiku", text "Claude Haiku 4.5 ($1/$5, snabbast)")
    ∷ (text "provider.anthropic.sonnet", text "Claude Sonnet 4.6 ($3/$15, balanserat)")
    ∷ (text "provider.anthropic.opus", text "Claude Opus 4.7 ($15/$75, bäst kvalitet)")
    ∷ (text "provider.openai.name", text "OpenAI")
    ∷ (
      text "provider.openai.model_hint",
      text
          "GPT-5.4 är senaste flaggskeppsmodellen. GPT-5.1 är billigare med bra kvalitet. GPT-4.1 är snabbast och billigast.",
    )
    ∷ (text "provider.openai_compat.name", text "OpenAI-kompatibel (lokal/annan)")
    ∷ (text "provider.openai_compat.base_url", text "API-bas-URL")
    ∷ (
      text "provider.openai_compat.base_url_hint",
      text "Bas-URL till en OpenAI-kompatibel API (llama.cpp, Ollama, etc.).",
    )
    ∷ (
      text "provider.openai_compat.api_key_hint",
      text "Lämna tomt för lokala backends som inte kräver autentisering.",
    )
    ∷ (text "provider.openai_compat.model_hint", text "Modellnamn som backend förväntar sig.")
    ∷ (text "provider.willys.username", text "Användarnamn (YYYYMMDDNNNN)")
    ∷ (text "provider.test", text "Testa anslutning")
    ∷ (text "provider.testing", text "Testar...")
    ∷ (text "provider.test_unknown_error", text "Okänt fel")
    ∷ (text "prefs.new_category_placeholder", text "t.ex. allergier")
    ∷ (text "prefs.body_placeholder", text "# Rubrik\n\nMarkdown-innehåll…")
    ∷ (text "print.loading", text "Laddar…")
    ∷ (text "chat.aria", text "Chatt")
    ∷ []
