-- ===== src/Week/Tests.antt =====
-- The guards of a week on a concrete week.
use veckomenyn.Base.{ℕ, ◌≡◌, refl, true, none, [], ◌∷◌, Text, text}
use veckomenyn.Api.Types.{draft, WeekDetail, Dinner}
use veckomenyn.Week.{text_lt, asks}

abbrev dinner_on : Text → Dinner
dinner_on day = record {
  id = 1;
  day_date = day;
  dish_id = none;
  dish_name = text "Soup";
  cuisine = none;
  servings = 4;
  sourcing = [];
  recipe_md = [];
  notes = [];
  rating = none;
  rating_notes = [];
}

abbrev week : WeekDetail ℕ
week = record {
  summary = record {
    id = 7;
    iso_week = text "2026-W17";
    start_date = text "2026-04-20";
    end_date = text "2026-04-26";
    delivery_date = none;
    order_date = none;
    status = draft;
    dinner_count = 2;
    updated_at = text "2026-04-18";
  };
  notes_md = [];
  dinners = dinner_on (text "2026-04-20") ∷ dinner_on (text "2026-04-23") ∷ [];
  exceptions = [];
  retrospectives = [];
  cart_items = [];
}

-- A shorter week that cuts a dinner off asks first.
asks_week : asks (text "2026-04-21") week ≡ true
unfolding asks text_lt
asks_week = refl
