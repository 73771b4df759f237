-- ===== src/Route/Parse.antt =====
-- The round trip between routes and paths.
use veckomenyn.Base.{
  ℕ, ◌≤◌, ◌≡◌, ◌≢◌, append-nil, refl, ap, ◌∙◌, Bool, true, false, ◌&&◌, Bool-cases, inl, inr, List,
  [], ◌∷◌, ◌++◌, Text, text, arith, ◌===◌, ===_iff, show, number, max_exact, round_double_exact,
  value-show, all_digits-show, show-ne-nil, all, All, is_digit, split, split-append, split-single,
  round_double,
}
use veckomenyn.Route.{
  Route, home, week, new, print, settings, preferences, usage, setup, is_id, parse_rest,
  parse_parts, segments, parse_route, route_to_path,
}

abbrev pub HasExactId : Route → Type 0
HasExactId (week id) = id ≤ max_exact
HasExactId (print id) = id ≤ max_exact
HasExactId _ = Unit

digits_lack_slash : (s : Text) → all is_digit s ≡ true → All (λ c. c ≢ b'/') s
digits_lack_slash [] h = tt
digits_lack_slash (c ∷ s) h = (ground arith, digits_lack_slash s (ground arith))

-- A path below /weeks/ that goes on with a digit is none of the fixed paths.
parse_route_below :
    (s t : Text)
    → s ≢ []
    → all is_digit s ≡ true
    → parse_route (text "/weeks/" ++ (s ++ t)) ≡ parse_parts (segments (text "/weeks/" ++ (s ++ t)))
unfolding parse_route ◌===◌
parse_route_below [] t n h = absurd (n refl)
parse_route_below (c ∷ s) t n h = ground arith

is_id-show : (n : ℕ) → is_id (show n) ≡ true
unfolding is_id
is_id-show n = ground (arith, all_digits-show n, show-ne-nil n)

number-show : (n : ℕ) → n ≤ max_exact → number (show n) ≡ n
unfolding number
number-show n h = ap round_double (value-show n) ∙ round_double_exact n h

segments_week :
    (s : Text)
    → s ≢ []
    → All (λ c. c ≢ b'/') s
    → segments (text "/weeks/" ++ s) ≡ text "weeks" ∷ s ∷ []
unfolding segments split
segments_week s n h = rw (split-single b'/' s h) (ground arith)

segments_print :
    (s : Text)
    → s ≢ []
    → All (λ c. c ≢ b'/') s
    → segments (text "/weeks/" ++ (s ++ text "/print")) ≡ text "weeks" ∷ s ∷ text "print" ∷ []
unfolding segments split
segments_print s n h = rw (split-append b'/' s (text "print") h) (ground arith)

parse_parts_week :
    (n : ℕ) (parts : List Text)
    → n ≤ max_exact
    → parse_parts (text "weeks" ∷ show n ∷ parts) ≡ parse_rest n parts
unfolding parse_parts ◌===◌
parse_parts_week n parts h = rw (is_id-show n, number-show n h)

-- The path of a route, parsed, is the route, if its id is at most 2^53.
pub parse_route-route_to_path : (r : Route) → HasExactId r → parse_route (route_to_path r) ≡ r
unfolding route_to_path ◌===◌
parse_route-route_to_path home h = unfold parse_route ◌===◌ in refl
parse_route-route_to_path new h = unfold parse_route ◌===◌ in refl
parse_route-route_to_path settings h = unfold parse_route ◌===◌ in refl
parse_route-route_to_path preferences h = unfold parse_route ◌===◌ in refl
parse_route-route_to_path usage h = unfold parse_route ◌===◌ in refl
parse_route-route_to_path setup h = unfold parse_route ◌===◌ in refl
parse_route-route_to_path (week id) h =
    let slashless = digits_lack_slash (show id) (all_digits-show id) in
    let below = parse_route_below (show id) [] (show-ne-nil id) (all_digits-show id) in
    (rw append-nil at below)
    ∙ ap parse_parts (segments_week (show id) (show-ne-nil id) slashless)
    ∙ parse_parts_week id [] h
parse_route-route_to_path (print id) h =
    let slashless = digits_lack_slash (show id) (all_digits-show id) in
    parse_route_below (show id) (text "/print") (show-ne-nil id) (all_digits-show id)
    ∙ ap parse_parts (segments_print (show id) (show-ne-nil id) slashless)
    ∙ parse_parts_week id (text "print" ∷ []) h

-- The routes that carry an id.
abbrev pub NamesWeek : Route → Type 0
NamesWeek (week id) = Unit
NamesWeek (print id) = Unit
NamesWeek _ = ⊥

abbrev pub id_of : Route → ℕ
id_of (week id) = id
id_of (print id) = id
id_of _ = 0

-- The segments that follow the id.
abbrev pub tail_of : Route → List Text
tail_of (print id) = text "print" ∷ []
tail_of _ = []

-- The segments from which a route with an id is read.
abbrev pub IsReadFrom : Route → List Text → Type 0
IsReadFrom r parts =
    (d : Text) × (parts ≡ text "weeks" ∷ d ∷ tail_of r) × (is_id d ≡ true) × (id_of r ≡ number d)

parse_rest_sound :
    (id : ℕ) (parts : List Text)
    → NamesWeek (parse_rest id parts)
    → (id_of (parse_rest id parts) ≡ id) × (parts ≡ tail_of (parse_rest id parts))
parse_rest_sound id [] h = (refl, refl)
parse_rest_sound id (s ∷ []) h = elim (Bool-cases (s === text "print")) [
  | inl e ↦ rw e (refl, ap (λ t. t ∷ []) ((===_iff s (text "print")).0 e))
  | inr e ↦ absurd (rw e at h)
]
parse_rest_sound id (s ∷ t ∷ parts) h = elim h [ ]

parse_parts_sound :
    (parts : List Text) → NamesWeek (parse_parts parts) → IsReadFrom (parse_parts parts) parts
unfolding parse_parts
parse_parts_sound [] h = elim h [ ]
parse_parts_sound (root ∷ []) h = elim h [ ]
parse_parts_sound (root ∷ d ∷ parts) h = elim (Bool-cases (root === text "weeks" && is_id d)) [
  | inl e ↦
      let sound = parse_rest_sound (number d) parts (rw e at h) in
      rw e (d, cc ((===_iff root (text "weeks")).0 (ground arith), sound.1), ground arith, sound.0)
  | inr e ↦ absurd (rw e at h)
]

names_week : Route → Bool
names_week (week id) = true
names_week (print id) = true
names_week _ = false

names_week_of : (r : Route) → NamesWeek r → names_week r ≡ true
unfolding names_week
names_week_of (week id) h = refl
names_week_of (print id) h = refl
names_week_of _ h = elim h [ ]

parse_route_parts :
    (p : Text) → names_week (parse_route p) ≡ true → parse_route p ≡ parse_parts (segments p)
unfolding parse_route names_week
parse_route_parts p h = ground arith

-- A path that opens a week or its print view is `weeks`, digits, and `print` for the latter, up to
-- empty segments; the id is the number that the digits spell.
pub parse_route_sound :
    (p : Text) → NamesWeek (parse_route p) → IsReadFrom (parse_route p) (segments p)
parse_route_sound p h =
    let e = parse_route_parts p (names_week_of (parse_route p) h) in
    rw e (parse_parts_sound (segments p) (rw e at h))
