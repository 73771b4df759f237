-- ===== src/I18n/Sv/Planning.antt =====
-- Swedish texts, web/src/i18n/sv.ts, lines 2-90.
use veckomenyn.Base.{List, [], ◌∷◌, Text, text}

abbrev pub sv_planning : List (Text × Text)
sv_planning =
    (text "home.title", text "Veckomenyn")
    ∷ (text "home.subtitle", text "Planera en vecka, bygg kundvagnen, beställ, blicka tillbaka.")
    ∷ (text "home.plan_new", text "Planera en ny vecka")
    ∷ (text "home.plan_first", text "Planera din första vecka")
    ∷ (text "home.your_weeks", text "Dina veckor")
    ∷ (text "home.empty_title", text "Välkommen.")
    ∷ (
      text "home.empty_body",
      text
          "Här bor familjens veckor. Agenten hjälper dig planera middagar, bygger kundvagnen och lär sig av varje veckas återblick.",
    )
    ∷ (text "home.loop_step_plan", text "Planera middagar för veckan.")
    ∷ (text "home.loop_step_cart", text "Låt agenten bygga Willys-kundvagnen.")
    ∷ (text "home.loop_step_order", text "Beställ på willys.se.")
    ∷ (text "home.loop_step_retro", text "Skriv en återblick så nästa vecka blir bättre.")
    ∷ (text "topbar.brand_home", text "Hem")
    ∷ (text "topbar.working", text "agenten arbetar")
    ∷ (text "topbar.stop", text "Stoppa")
    ∷ (text "topbar.refresh", text "Uppdatera")
    ∷ (text "topbar.settings", text "Inställningar")
    ∷ (text "topbar.open_chat", text "Fråga agenten")
    ∷ (text "topbar.close_chat", text "Stäng chatt")
    ∷ (text "plan.title", text "Planera en vecka")
    ∷ (text "plan.subtitle", text "Välj menyns första dag och antal middagar.")
    ∷ (text "plan.start_date", text "Startdatum")
    ∷ (text "plan.menu_runs_through", text "Menyn löper till {end}")
    ∷ (text "plan.num_dinners", text "Antal middagar")
    ∷ (text "plan.notes", text "Noteringar (valfritt)")
    ∷ (text "plan.notes_hint", text "Barn borta, fika, annat vi bör känna till.")
    ∷ (
      text "plan.notes_placeholder",
      text "Noah borta tor–sön. Extra bak till fredagsfika på jobbet.",
    )
    ∷ (text "plan.submit", text "Planera veckan")
    ∷ (text "plan.submitting", text "Planerar…")
    ∷ (text "plan.cancel", text "Avbryt")
    ∷ (text "week.add_dinner", text "Lägg till middag")
    ∷ (text "week.regenerate", text "Föreslå ny meny")
    ∷ (text "week.print", text "Skriv ut")
    ∷ (text "week.notes_label", text "noteringar")
    ∷ (text "week.notes_placeholder", text "Vecknoteringar (barn borta, extra bak…)")
    ∷ (
      text "print.preview_hint",
      text "Förhandsvisning. Klicka knappen eller tryck Cmd/Ctrl+P för att skriva ut.",
    )
    ∷ (text "print.print_button", text "Skriv ut")
    ∷ (text "print.overview", text "Översikt")
    ∷ (text "print.day", text "Dag")
    ∷ (text "print.dinner", text "Middag")
    ∷ (text "print.pers", text "Pers")
    ∷ (text "print.source", text "Källa")
    ∷ (text "week.no_dinners", text "Inga middagar planerade ännu.")
    ∷ (text "week.plan_dinners", text "Planera middagar")
    ∷ (text "week.this_week", text "Den här veckan")
    ∷ (text "week.retrospective", text "Återblick")
    ∷ (text "week.set_label", text "sätt {label}")
    ∷ (text "week.edit_label", text "Redigera {label}")
    ∷ (text "week.clone_next", text "Planera nästa vecka utifrån denna")
    ∷ (
      text "week.truncate_confirm",
      text
          "Om du kortar ner planen tas {count} middag(ar) bort som ligger efter det nya slutdatumet. Fortsätt?",
    )
    ∷ (
      text "week.unlock_confirm",
      text
          "Detta flyttar tillbaka veckan till ”{target}” så menyn går att redigera igen. Innehållet i kundvagnen och betyg behålls. Fortsätt?",
    )
    ∷ (
      text "week.locked_hint",
      text "Menyn är låst när status är {status}. Ändra status nedan för att låsa upp redigering.",
    )
    ∷ (
      text "week.add_dinner_prompt",
      text "Lägg till ytterligare en middag till veckan som löper från {start} till {end}.",
    )
    ∷ (
      text "week.regenerate_prompt",
      text
          "Gör om menyn för veckan som löper från {start} till {end}. Ersätt varje middag med ett nytt alternativ, med samma förutsättningar.",
    )
    ∷ (
      text "week.plan_dinners_prompt",
      text "Planera middagar för veckan som löper från {start} till {end}.",
    )
    ∷ (text "dinner.adjust", text "Ändra")
    ∷ (
      text "dinner.adjust_placeholder",
      text
          "Byt till något annat, gör mindre stark, använd fläsk istället, lägg till potatis som tillbehör…",
    )
    ∷ (text "dinner.adjust_hint", text "⌘/Ctrl+Enter för att skicka")
    ∷ (text "dinner.adjust_send", text "Skicka")
    ∷ (text "dinner.adjust_cancel", text "Avbryt")
    ∷ (
      text "dinner.adjust_prompt",
      text
          "För middagen den {date} (dinner_id {id}, ”{name}”): {request}. Använd update_dinner för att genomföra ändringen. En mindre justering bevarar rätten, ett byte innebär en helt ny rätt.",
    )
    ∷ (text "dinner.recipe", text "Recept")
    ∷ (text "dinner.servings", text "pers")
    ∷ (text "dinner.untitled", text "(utan titel)")
    ∷ (text "editable.add_label", text "Lägg till {label}")
    ∷ (text "status.draft", text "utkast")
    ∷ (text "status.cart_built", text "klar att beställa")
    ∷ (text "status.ordered", text "beställd")
    ∷ []
