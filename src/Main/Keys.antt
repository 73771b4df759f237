-- ===== src/Main/Keys.antt =====
-- When a week is loaded again.
use veckomenyn.Base.{
  ◌≡◌, ap, ◌∙◌, sym, refl, Text, text, ◌===◌, value, value-show, drop, if◌then◌else◌, take,
}
use veckomenyn.Route.{Route, home, new, settings, preferences, usage, setup, week, print}
use veckomenyn.Main.{route_load_key}

-- The route of a key.
route_of : Text → Route
route_of k =
    if k === text "home"
    then home
    else if k === text "new"
    then new
    else if k === text "settings"
    then settings
    else if k === text "preferences"
    then preferences
    else if k === text "usage"
    then usage
    else if k === text "setup"
    then setup
    else if take 1 k === text "w"
    then week (value (drop 5 k))
    else print (value (drop 6 k))

route_of-route_load_key : (r : Route) → route_of (route_load_key r) ≡ r
unfolding route_of route_load_key ◌===◌
route_of-route_load_key home = refl
route_of-route_load_key new = refl
route_of-route_load_key settings = refl
route_of-route_load_key preferences = refl
route_of-route_load_key usage = refl
route_of-route_load_key setup = refl
route_of-route_load_key (week id) = ap (λ n. week n) (value-show id)
route_of-route_load_key (print id) = ap (λ n. print n) (value-show id)

-- Two routes have one key for loading only if they are the same route, so a load that depends on the
-- key runs again whenever the route changes.
pub route_load_key-injective : (r q : Route) → route_load_key r ≡ route_load_key q → r ≡ q
route_load_key-injective r q e =
    sym (route_of-route_load_key r) ∙ ap route_of e ∙ route_of-route_load_key q
