-- ===== src/Route/Segments.antt =====
-- The segments of a path, told from its text alone, and the path of a route with an id.
use veckomenyn.Base.{
  ℕ, ◌≤◌, ◌≡◌, ◌≢◌, refl, ap, true, Bool-cases, inl, inr, List, [], ◌∷◌, ◌++◌, Text, text, arith,
  ◌==◌, ==_iff, not, all, All, is_empty, is_digit, number, split, keep_if, cons_head, Lacks, subst,
}
use veckomenyn.Route.{is_id, segments, parse_route}
use veckomenyn.Route.Parse.{NamesWeek, id_of, tail_of, parse_route_sound}

-- The text is empty or goes on with a slash.
abbrev EndsPart : Text → Type 0
EndsPart [] = Unit
EndsPart (c ∷ s) = c ≡ b'/'

-- The path is made of these parts, with slashes between them and any before and behind. A part is not
-- empty and has no slash.
abbrev pub IsPath : Text → List Text → Type 0
IsPath p [] = All (λ c. c ≡ b'/') p
IsPath p (x ∷ xs) =
    (gap : Text) × (rest : Text) × (p ≡ gap ++ (x ++ rest))
    × All (λ c. c ≡ b'/') gap
    × (x ≢ [])
    × Lacks b'/' x
    × EndsPart rest
    × IsPath rest xs

abbrev pub IsDecimal : ℕ → Type 0
IsDecimal c = (48 ≤ c) × (c ≤ 57)

IsPath-slash : (xs : List Text) (p : Text) → IsPath p xs → IsPath (b'/' ∷ p) xs
IsPath-slash [] p h = (refl, h)
IsPath-slash (x ∷ xs) p (gap, rest, e, g, k, l, m, h) =
    (b'/' ∷ gap, rest, ap (λ t. b'/' ∷ t) e, (refl, g), k, l, m, h)

filled : List Text → List Text
filled parts = keep_if (λ s. not (is_empty s)) parts

IsPath-part :
    (x rest : Text) (xs : List Text)
    → Lacks b'/' x
    → EndsPart rest
    → IsPath rest (filled xs)
    → IsPath (x ++ rest) (filled (x ∷ xs))
unfolding filled
IsPath-part [] rest xs h k m = m
IsPath-part (c ∷ x) rest xs h k m = ([], rest, refl, tt, λ e. cc, h, k, m)

-- The first piece of a split text, and what is behind it.
record IsCut (p : Text) (pieces : List Text) : Type 0 where
  first : Text
  others : List Text
  rest : Text
  pieces_are : pieces ≡ first ∷ others
  text_is : p ≡ first ++ rest
  lacks : Lacks b'/' first
  ends : EndsPart rest
  behind : IsPath rest (filled others)

whole : (p : Text) (pieces : List Text) → IsCut p pieces → IsPath p (filled pieces)
whole p pieces h =
    rw (h.pieces_are, h.text_is) (IsPath-part h.first h.rest h.others h.lacks h.ends h.behind)

split-IsCut : (p : Text) → IsCut p (split b'/' p)
unfolding split filled
split-IsCut [] = record {
  first = [];
  others = [];
  rest = [];
  pieces_are = refl;
  text_is = refl;
  lacks = tt;
  ends = tt;
  behind = tt;
}
split-IsCut (c ∷ s) = elim (Bool-cases (c == b'/')) [
  | inl e ↦
      let slash : c ≡ b'/' = (==_iff c b'/').0 e in
      rw e (record {
        first = [];
        others = split b'/' s;
        rest = c ∷ s;
        pieces_are = refl;
        text_is = refl;
        lacks = tt;
        ends = slash;
        behind =
            rw slash
              (IsPath-slash (filled (split b'/' s)) s (whole s (split b'/' s) (split-IsCut s)));
      })
  | inr e ↦
      let cut = split-IsCut s in
      rw e (record {
        first = c ∷ cut.first;
        others = cut.others;
        rest = cut.rest;
        pieces_are = ap (cons_head c) cut.pieces_are;
        text_is = ap (λ t. c ∷ t) cut.text_is;
        lacks = (λ h. ground (arith, h, e), cut.lacks);
        ends = cut.ends;
        behind = cut.behind;
      })
]

IsPath-segments : (p : Text) → IsPath p (segments p)
unfolding segments filled
IsPath-segments p = whole p (split b'/' p) (split-IsCut p)

decimals : (s : Text) → all is_digit s ≡ true → All IsDecimal s
decimals [] h = tt
decimals (c ∷ s) h = (ground (arith, h), decimals s (ground (arith, h)))

all-is_id : (s : Text) → is_id s ≡ true → all is_digit s ≡ true
unfolding is_id
all-is_id s h = ground arith

-- A path that opens a week or its print view is made of `weeks`, one or more digits, and `print` for
-- the latter, with slashes between them and any slashes before and behind; the id is the number that
-- `Number` makes of these digits.
pub parse_route-IsPath :
    (p : Text)
    → NamesWeek (parse_route p)
    → (d : Text) × IsPath p (text "weeks" ∷ d ∷ tail_of (parse_route p))
      × All IsDecimal d
      × (id_of (parse_route p) ≡ number d)
parse_route-IsPath p h =
    let (d, parts, digits, id) = parse_route_sound p h in
    (d, subst (IsPath p) parts (IsPath-segments p), decimals d (all-is_id d digits), id)
