-- ===== src/Route.antt =====
-- web/src/lib/route.ts: the URLs of the application, navigation and the listeners on it.
-- `window` is not part of the program: what the code does to it is a list of effects.
pub mod Parse
pub mod Segments
pub mod Navigation
mod Tests
use veckomenyn.Base.{
  ℕ, zero, suc, ◌+◌, ◌≤◌, ltb, Bool, true, false, not, ◌&&◌, ◌||◌, Option, none, some, List, [],
  ◌∷◌, ◌++◌, Text, text, ◌===◌, show, number, all, is_digit, is_empty, keep_if, split, length, ◌==◌,
  if◌then◌else◌, map,
}

pub data Route : Type 0 where
  home new settings preferences usage setup : Route
  week print : ℕ → Route

-- ID_RE
unfoldable pub is_id : Text → Bool
is_id s = not (is_empty s) && all is_digit s

abbrev pub parse_rest : ℕ → List Text → Route
parse_rest id [] = week id
parse_rest id (s ∷ []) = if s === text "print" then print id else home
parse_rest id (s ∷ t ∷ parts) = home

unfoldable pub parse_parts : List Text → Route
parse_parts (root ∷ id ∷ parts) =
    if root === text "weeks" && is_id id then parse_rest (number id) parts else home
parse_parts _ = home

-- `pathname.split("/").filter(Boolean)`
unfoldable pub segments : Text → List Text
segments pathname = keep_if (λ s. not (is_empty s)) (split b'/' pathname)

unfoldable pub parse_route : Text → Route
parse_route pathname =
    if pathname === text "/" || is_empty pathname
    then home
    else if pathname === text "/weeks/new"
    then new
    else if pathname === text "/settings"
    then settings
    else if pathname === text "/preferences"
    then preferences
    else if pathname === text "/usage"
    then usage
    else if pathname === text "/setup"
    then setup
    else parse_parts (segments pathname)

unfoldable pub route_to_path : Route → Text
route_to_path home = text "/"
route_to_path (week id) = text "/weeks/" ++ show id
route_to_path new = text "/weeks/new"
route_to_path (print id) = text "/weeks/" ++ (show id ++ text "/print")
route_to_path settings = text "/settings"
route_to_path preferences = text "/preferences"
route_to_path usage = text "/usage"
route_to_path setup = text "/setup"

-- What the code does to `window`, and the calls of the listeners (named by numbers).
pub data Effect : Type 0 where
  push_state replace_state : Text → Effect
  back add_popstate remove_popstate : Effect
  call : ℕ → Effect

unfoldable pub notify : List ℕ → List Effect
notify listeners = map call listeners

-- `Set.add` keeps the place of a member, `Set.delete` takes it out.
abbrev pub insert_listener : ℕ → List ℕ → List ℕ
insert_listener cb [] = cb ∷ []
insert_listener cb (l ∷ ls) = if l == cb then l ∷ ls else l ∷ insert_listener cb ls

abbrev pub delete_listener : ℕ → List ℕ → List ℕ
delete_listener cb listeners = keep_if (λ l. not (l == cb)) listeners

unfoldable pub subscribe : ℕ → List ℕ → List Effect × List ℕ
subscribe cb listeners =
    ((if length listeners == 0 then add_popstate ∷ [] else []), insert_listener cb listeners)

-- The function that `subscribe` returns.
unfoldable pub unsubscribe : ℕ → List ℕ → List Effect × List ℕ
unsubscribe cb listeners =
    let rest = delete_listener cb listeners in
    ((if length rest == 0 then remove_popstate ∷ [] else []), rest)

-- The path that a route or a text names.
pub data Target : Type 0 where
  path : Text → Target
  route : Route → Target

abbrev pub target_path : Target → Text
target_path (path p) = p
target_path (route r) = route_to_path r

abbrev pub enter : Bool → Text → Effect
enter true p = replace_state p
enter false p = push_state p

-- `current` is `window.location.pathname`.
unfoldable pub navigate : List ℕ → Text → Target → Bool → List Effect
navigate listeners current target replace =
    if target_path target === current
    then []
    else enter replace (target_path target) ∷ notify listeners

-- `entries` is `window.history.length`.
unfoldable pub go_back : List ℕ → ℕ → Text → Route → List Effect
go_back listeners entries current fallback =
    if ltb 1 entries then back ∷ [] else navigate listeners current (route fallback) true
