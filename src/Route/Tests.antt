-- ===== src/Route/Tests.antt =====
-- The routes of web/src/lib/route.ts on small inputs.
use veckomenyn.Base.{
  ◌≡◌, refl, All, Text, false, [], ◌∷◌, text, arith, ◌===◌, if◌then◌else◌, split, number,
}
use veckomenyn.Route.{
  home, week, print, parse_route, parse_parts, segments, is_id, route_to_path, route, navigate,
}
use veckomenyn.Route.Parse.{id_of, tail_of, parse_route-route_to_path}
use veckomenyn.Route.Segments.{IsPath, IsDecimal, parse_route-IsPath}
use veckomenyn.Route.Navigation.{path_after, entries_added, navigate_shows}

parses :
    (parse_route (text "/weeks/42/print") ≡ print 42)
    × (parse_route (text "//weeks//007/") ≡ week 7)
    × (parse_route (text "/weeks/new/") ≡ home)
    × (parse_route (text "/settings/") ≡ home)
unfolding parse_route parse_parts segments is_id split number ◌===◌
parses = (refl, refl, refl, refl)

parse_route-route_to_path_example : parse_route (route_to_path (print 42)) ≡ print 42
parse_route-route_to_path_example = parse_route-route_to_path (print 42) (omega arith)

parse_route-IsPath_example :
    let r = parse_route (text "//weeks//007/") in
    (d : Text) × IsPath (text "//weeks//007/") (text "weeks" ∷ d ∷ tail_of r)
    × All IsDecimal d
    × (id_of r ≡ number d)
unfolding parse_route parse_parts segments is_id split number ◌===◌
parse_route-IsPath_example = parse_route-IsPath (text "//weeks//007/") tt

navigate_shows_example :
    (parse_route (path_after (navigate (1 ∷ []) (text "/") (route (week 3)) false) (text "/"))
      ≡ week 3)
    × (entries_added (navigate (1 ∷ []) (text "/") (route (week 3)) false)
        ≡ (if false then 0 else if route_to_path (week 3) === text "/" then 0 else 1))
navigate_shows_example = navigate_shows (1 ∷ []) (text "/") (week 3) false (omega arith)
