-- ===== src/I18n/En/Lifecycle.antt =====
-- English texts, web/src/i18n/en.ts, lines 156-249.
use veckomenyn.Base.{List, [], ◌∷◌, Text, text}

abbrev pub en_lifecycle : List (Text × Text)
en_lifecycle =
    (text "sidebar.history", text "Weeks")
    ∷ (text "sidebar.current", text "Current week")
    ∷ (text "sidebar.empty", text "No weeks yet.")
    ∷ (text "sidebar.dinners_short", text "dinners")
    ∷ (text "sidebar.new_week", text "New week")
    ∷ (text "sidebar.new_week_title", text "Plan a new week")
    ∷ (text "sidebar.duplicate", text "Duplicate")
    ∷ (text "sidebar.delete", text "Delete")
    ∷ (
      text "sidebar.delete_confirm",
      text "Delete this plan, including its dinners and cart? This can't be undone.",
    )
    ∷ (text "duplicate.title", text "Duplicate plan")
    ∷ (text "duplicate.source_prefix", text "Source:")
    ∷ (text "duplicate.start_date", text "Start date")
    ∷ (text "duplicate.new_period_prefix", text "New period:")
    ∷ (text "duplicate.confirm", text "Duplicate")
    ∷ (text "duplicate.cancel", text "Cancel")
    ∷ (text "duplicate.close", text "Close")
    ∷ (text "duplicate.submitting", text "Duplicating…")
    ∷ (text "lifecycle.current", text "Current status")
    ∷ (text "lifecycle.build_cart", text "Build cart")
    ∷ (
      text "lifecycle.build_cart_prompt",
      text
          "Build the Willys cart for the plan running {start} through {end}. Follow the cart-building method in the system prompt: start with willys_cart_get and list what's already in the cart so I can confirm; incorporate those items into the plan (don't clear unless I say 'reset'). Aggregate ingredients across ALL dinners (show the list), subtract what's already in the cart, pick one product per missing ingredient, then one willys_cart_add_many with the delta. Verify with willys_cart_get at the end. When you're done, summarise what you added and mark the plan as cart_built.",
    )
    ∷ (text "lifecycle.mark_cart_built", text "Mark cart as built")
    ∷ (text "lifecycle.mark_ordered", text "Mark as ordered")
    ∷ (text "lifecycle.record_retrospective", text "Record retrospective")
    ∷ (text "lifecycle.open_willys", text "Open Willys.se")
    ∷ (text "lifecycle.set_status", text "Change status")
    ∷ (
      text "lifecycle.retrospective_prompt",
      text
          "Record a retrospective for the week running {start} through {end}. Per-dinner verdicts are already captured on each card. Ask me about what those don't show: pacing, portion sizes, overall balance, whether the week felt too heavy or lopsided, anything specific to carry into next week's plan. Save it as a week-level retrospective and update preferences when a lesson should stick.",
    )
    ∷ (text "cart.title", text "Shopping cart")
    ∷ (text "cart.code", text "Code")
    ∷ (text "cart.product", text "Product")
    ∷ (text "cart.qty", text "Qty")
    ∷ (text "cart.price", text "Price")
    ∷ (text "cart.reason", text "Note")
    ∷ (text "prefs.title", text "Preferences")
    ∷ (
      text "prefs.subtitle",
      text "Cooking principles, family, sourcing, rules. Free-form markdown per category.",
    )
    ∷ (text "prefs.pick_one", text "Pick a category on the left.")
    ∷ (text "prefs.new_category", text "New category")
    ∷ (text "prefs.delete", text "Delete")
    ∷ (text "prefs.confirm_delete", text "Delete the '{category}' category? This cannot be undone.")
    ∷ (text "integrations.title", text "Integrations")
    ∷ (
      text "integrations.subtitle",
      text
          "API keys and shopping accounts. Secrets stored in the database; leave a masked field untouched to keep the existing value.",
    )
    ∷ (text "integrations.enabled", text "Enabled")
    ∷ (text "integrations.category_llm", text "LLM provider")
    ∷ (text "integrations.category_shopping", text "Shopping provider")
    ∷ (text "integrations.secret_set_hint", text "Stored. Type a new value to replace it.")
    ∷ (text "provider.api_key", text "API key")
    ∷ (text "provider.model", text "Model")
    ∷ (text "provider.password", text "Password")
    ∷ (text "provider.anthropic.name", text "Anthropic")
    ∷ (
      text "provider.anthropic.model_hint",
      text
          "Sonnet 4.6 is the balanced default. Haiku is ~5x cheaper but weaker at creative meal planning. Opus is ~3-5x more expensive but better with complex preferences.",
    )
    ∷ (text "provider.anthropic.haiku", text "Claude Haiku 4.5 ($1/$5, fastest)")
    ∷ (text "provider.anthropic.sonnet", text "Claude Sonnet 4.6 ($3/$15, balanced)")
    ∷ (text "provider.anthropic.opus", text "Claude Opus 4.7 ($15/$75, best quality)")
    ∷ (text "provider.openai.name", text "OpenAI")
    ∷ (
      text "provider.openai.model_hint",
      text
          "GPT-5.4 is the latest flagship. GPT-5.1 is cheaper with good quality. GPT-4.1 is fastest and cheapest.",
    )
    ∷ (text "provider.openai_compat.name", text "OpenAI-compatible (local/other)")
    ∷ (text "provider.openai_compat.base_url", text "API base URL")
    ∷ (
      text "provider.openai_compat.base_url_hint",
      text "Base URL for an OpenAI-compatible API (llama.cpp, Ollama, etc.).",
    )
    ∷ (
      text "provider.openai_compat.api_key_hint",
      text "Leave empty for local backends that don't require authentication.",
    )
    ∷ (text "provider.openai_compat.model_hint", text "Model name as the backend expects it.")
    ∷ (text "provider.willys.username", text "Username (YYYYMMDDNNNN)")
    ∷ (text "provider.test", text "Test connection")
    ∷ (text "provider.testing", text "Testing...")
    ∷ (text "provider.test_unknown_error", text "Unknown error")
    ∷ (text "prefs.new_category_placeholder", text "e.g. allergies")
    ∷ (text "prefs.body_placeholder", text "# Heading\n\nMarkdown body…")
    ∷ (text "print.loading", text "Loading…")
    ∷ (text "chat.aria", text "Chat")
    ∷ []
