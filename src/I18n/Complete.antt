-- ===== src/I18n/Complete.antt =====
-- The two dictionaries translate the same keys, with the same placeholders.
use veckomenyn.Base.{
  ◌≡◌, refl, ◌∙◌, sym, Bool, true, false, ◌&&◌, ◌==◌, not, Option, none, some, Text, ◌===◌, ===_iff,
  if◌then◌else◌, List, [], ◌∷◌, ◌++◌, get_or, is_empty, is_some, any, all, arith, Bool-cases, inl,
  inr, ◌⊎◌, subst, ap,
}
use veckomenyn.Base.Assoc.{Assoc, lookup}
use veckomenyn.I18n.{
  Lang, sv, en, Dictionaries, dictionary, LangState, raw_text, Mode, outside, inside, is_word,
}
use veckomenyn.I18n.Sv.{sv_texts}
use veckomenyn.I18n.En.{en_texts}

abbrev pub dictionaries : Dictionaries
dictionaries = record { sv = sv_texts; en = en_texts }

-- The names between braces that `t` looks up in its parameters.
abbrev pub names_in : Mode → Text → List Text
names_in mode [] = []
names_in outside (c ∷ s) = names_in (if c == 123 then inside [] else outside) s
names_in (inside name) (c ∷ s) =
    if is_word c
    then names_in (inside (name ++ c ∷ [])) s
    else if c == 125 && not (is_empty name)
    then name ∷ names_in outside s
    else names_in (if c == 123 then inside [] else outside) s

abbrev pub placeholders : Text → List Text
placeholders s = names_in outside s

abbrev pub contains : List Text → Text → Bool
contains names x = any (λ y. y === x) names

abbrev same_names : List Text → List Text → Bool
same_names xs ys = all (contains ys) xs && all (contains xs) ys

abbrev matches : Assoc Text → Assoc Text → Bool
matches [] [] = true
matches ((k, v) ∷ d) ((j, w) ∷ e) =
    k === j && same_names (placeholders v) (placeholders w) && matches d e
matches _ _ = false

dictionaries_match : matches sv_texts en_texts ≡ true
unfolding ◌===◌
dictionaries_match = refl

matches-is_some :
    (k : Text) (d e : Assoc Text) → matches d e ≡ true → is_some (lookup k d) ≡ is_some (lookup k e)
unfolding lookup
matches-is_some k [] [] h = refl
matches-is_some k [] (_ ∷ e) h = ground arith
matches-is_some k ((j, v) ∷ d) [] h = ground arith
matches-is_some k ((j, v) ∷ d) ((i, w) ∷ e) h =
    ground (arith, ===_iff j i, ===_iff j k, ===_iff i k, matches-is_some k d e)

-- Where a key has no text, the default takes its place in both languages.
matches-same_names :
    (k other : Text) (d e : Assoc Text)
    → matches d e ≡ true
    → (get_or (lookup k d) other ≡ get_or (lookup k e) other)
      ⊎ (same_names
            (placeholders (get_or (lookup k d) other))
            (placeholders (get_or (lookup k e) other))
          ≡ true)
unfolding lookup
matches-same_names k other [] [] h = inl refl
matches-same_names k other [] (_ ∷ e) h = ground arith
matches-same_names k other ((j, v) ∷ d) [] h = ground arith
matches-same_names k other ((j, v) ∷ d) ((i, w) ∷ e) h =
    let same_key : j ≡ i = (===_iff j i).0 (ground arith) in
    let rest = matches-same_names k other d e (ground arith) in
    let here : same_names (placeholders v) (placeholders w) ≡ true = ground arith in
    elim (Bool-cases (j === k)) [
      | inl found ↦ rw (found, sym (ap (λ t. t === k) same_key) ∙ found) (inr here)
      | inr ne ↦ rw (ne, sym (ap (λ t. t === k) same_key) ∙ ne) rest
    ]

contains-all :
    (p : Text → Bool) (xs : List Text) (x : Text)
    → all p xs ≡ true
    → contains xs x ≡ true
    → p x ≡ true
contains-all p [] x h there = ground arith
contains-all p (y ∷ xs) x h there = elim (Bool-cases (y === x)) [
  | inl same ↦ subst (λ z. p z ≡ true) ((===_iff y x).0 same) (ground arith)
  | inr ne ↦ contains-all p xs x (ground arith) (ground arith)
]

same_names-contains :
    (xs ys : List Text) (x : Text) → same_names xs ys ≡ true → contains xs x ≡ contains ys x
same_names-contains xs ys x h =
    ground (arith, contains-all (contains ys) xs x, contains-all (contains xs) ys x)

is_some-get_or_none :
    (o p : Option Text) (k : Text) → is_some o ≡ is_some p → get_or o (get_or p k) ≡ get_or o k
is_some-get_or_none none none k h = refl
is_some-get_or_none none (some p) k h = ground arith
is_some-get_or_none (some o) p k h = refl

get_or_own : (o : Option Text) (k : Text) → get_or o (get_or o k) ≡ get_or o k
get_or_own none k = refl
get_or_own (some o) k = refl

translated :
    (l : Lang) (key : Text)
    → get_or (lookup key (dictionary dictionaries l)) (get_or (lookup key en_texts) key)
      ≡ get_or (lookup key (dictionary dictionaries l)) key
translated sv key =
    is_some-get_or_none (lookup key sv_texts) (lookup key en_texts) key
      (matches-is_some key sv_texts en_texts dictionaries_match)
translated en key = get_or_own (lookup key en_texts) key

-- The fallback to English never takes effect: a text that one language has, the other has too, and a
-- key without a text stands for itself in both.
pub raw_text-translated :
    (s : LangState) (key : Text)
    → raw_text dictionaries s key ≡ get_or (lookup key (dictionary dictionaries s.current)) key
unfolding raw_text
raw_text-translated s key = translated s.current key

contains-sv :
    (key name : Text)
    → contains (placeholders (get_or (lookup key sv_texts) key)) name
      ≡ contains (placeholders (get_or (lookup key en_texts) key)) name
contains-sv key name = elim (matches-same_names key key sv_texts en_texts dictionaries_match) [
  | inl same ↦ ap (λ t. contains (placeholders t) name) same
  | inr same ↦
      same_names-contains (placeholders (get_or (lookup key sv_texts) key))
        (placeholders (get_or (lookup key en_texts) key)) name same
]

contains-en :
    (l : Lang) (key name : Text)
    → contains (placeholders (get_or (lookup key (dictionary dictionaries l)) key)) name
      ≡ contains (placeholders (get_or (lookup key en_texts) key)) name
contains-en sv key name = contains-sv key name
contains-en en key name = refl

-- Whatever the languages and the key, the two texts have the same placeholders, so the parameters that
-- fill one of them in fill the other in too.
pub placeholders-raw_text :
    (s t : LangState) (key name : Text)
    → contains (placeholders (raw_text dictionaries s key)) name
      ≡ contains (placeholders (raw_text dictionaries t key)) name
placeholders-raw_text s t key name =
    rw (raw_text-translated s key, raw_text-translated t key)
      (contains-en s.current key name ∙ sym (contains-en t.current key name))
