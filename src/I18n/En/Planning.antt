-- ===== src/I18n/En/Planning.antt =====
-- English texts, web/src/i18n/en.ts, lines 2-88.
use veckomenyn.Base.{List, [], ◌∷◌, Text, text}

abbrev pub en_planning : List (Text × Text)
en_planning =
    (text "home.title", text "Veckomenyn")
    ∷ (text "home.subtitle", text "Plan a week, build the cart, order, retrospect.")
    ∷ (text "home.plan_new", text "Plan a new week")
    ∷ (text "home.plan_first", text "Plan your first week")
    ∷ (text "home.your_weeks", text "Your weeks")
    ∷ (text "home.empty_title", text "Welcome.")
    ∷ (
      text "home.empty_body",
      text
          "This is where the family's weeks live. The agent helps you plan dinners, builds the grocery cart, and learns from each week's feedback.",
    )
    ∷ (text "home.loop_step_plan", text "Plan dinners for the week.")
    ∷ (text "home.loop_step_cart", text "Let the agent build the Willys cart.")
    ∷ (text "home.loop_step_order", text "Place the order on willys.se.")
    ∷ (text "home.loop_step_retro", text "Record a retrospective so next week is better.")
    ∷ (text "topbar.brand_home", text "Home")
    ∷ (text "topbar.working", text "agent working")
    ∷ (text "topbar.stop", text "Stop")
    ∷ (text "topbar.refresh", text "Refresh")
    ∷ (text "topbar.settings", text "Settings")
    ∷ (text "topbar.open_chat", text "Ask agent")
    ∷ (text "topbar.close_chat", text "Close chat")
    ∷ (text "plan.title", text "Plan a week")
    ∷ (text "plan.subtitle", text "Pick the first day of the menu and how many dinners you want.")
    ∷ (text "plan.start_date", text "Start date")
    ∷ (text "plan.menu_runs_through", text "Menu runs through {end}")
    ∷ (text "plan.num_dinners", text "Number of dinners")
    ∷ (text "plan.notes", text "Notes (optional)")
    ∷ (text "plan.notes_hint", text "Kids away, fika bake, anything we should know.")
    ∷ (text "plan.notes_placeholder", text "Noah away Thu–Sun. Extra bake for work fika Friday.")
    ∷ (text "plan.submit", text "Plan the week")
    ∷ (text "plan.submitting", text "Planning…")
    ∷ (text "plan.cancel", text "Cancel")
    ∷ (text "week.add_dinner", text "Add dinner")
    ∷ (text "week.regenerate", text "Suggest new menu")
    ∷ (text "week.print", text "Print")
    ∷ (text "week.notes_label", text "notes")
    ∷ (text "week.notes_placeholder", text "Week notes (kids away, extra bake…)")
    ∷ (text "print.preview_hint", text "Preview. Use the button or Cmd/Ctrl+P to print.")
    ∷ (text "print.print_button", text "Print")
    ∷ (text "print.overview", text "Overview")
    ∷ (text "print.day", text "Day")
    ∷ (text "print.dinner", text "Dinner")
    ∷ (text "print.pers", text "Pers")
    ∷ (text "print.source", text "Source")
    ∷ (text "week.no_dinners", text "No dinners planned yet.")
    ∷ (text "week.plan_dinners", text "Plan dinners")
    ∷ (text "week.this_week", text "This week")
    ∷ (text "week.retrospective", text "Retrospective")
    ∷ (text "week.set_label", text "set {label}")
    ∷ (text "week.edit_label", text "Edit {label}")
    ∷ (text "week.clone_next", text "Plan next week from this one")
    ∷ (
      text "week.truncate_confirm",
      text "Shortening the plan will drop {count} dinner(s) past the new end date. Continue?",
    )
    ∷ (
      text "week.unlock_confirm",
      text
          "This will move the week back to '{target}' so the menu becomes editable again. Cart contents and ratings stay. Continue?",
    )
    ∷ (
      text "week.locked_hint",
      text "Menu locked while {status}. Change status below to reopen editing.",
    )
    ∷ (
      text "week.add_dinner_prompt",
      text "Add another dinner to the week running {start} through {end}.",
    )
    ∷ (
      text "week.regenerate_prompt",
      text
          "Regenerate the meal plan for the week running {start} through {end}. Replace each dinner with a fresh option, keeping the same constraints.",
    )
    ∷ (
      text "week.plan_dinners_prompt",
      text "Plan dinners for the week running {start} through {end}.",
    )
    ∷ (text "dinner.adjust", text "Adjust")
    ∷ (
      text "dinner.adjust_placeholder",
      text "Swap for something different, less spicy, use pork instead, add potatoes as a side…",
    )
    ∷ (text "dinner.adjust_hint", text "⌘/Ctrl+Enter to send")
    ∷ (text "dinner.adjust_send", text "Send")
    ∷ (text "dinner.adjust_cancel", text "Cancel")
    ∷ (
      text "dinner.adjust_prompt",
      text
          "For the dinner on {date} (dinner_id {id}, '{name}'): {request}. Use update_dinner to apply the change. A small tweak should preserve the dish; a swap means a new dish entirely.",
    )
    ∷ (text "dinner.recipe", text "Recipe")
    ∷ (text "dinner.servings", text "pers")
    ∷ (text "dinner.untitled", text "(untitled)")
    ∷ (text "editable.add_label", text "Add {label}")
    ∷ (text "status.draft", text "draft")
    ∷ (text "status.cart_built", text "ready to order")
    ∷ (text "status.ordered", text "ordered")
    ∷ []
