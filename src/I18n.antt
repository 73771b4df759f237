-- ===== src/I18n.antt =====
-- web/src/i18n/index.ts: the current language, and `t`, which looks a key up and fills its text in.
-- The dictionaries of web/src/i18n/sv.ts and en.ts are data, and parameters here.
pub mod En
pub mod Sv
mod Tests
pub mod Complete
pub mod Fill
use veckomenyn.Base.{
  ℕ, ◌+◌, Bool, true, false, not, ◌||◌, ◌&&◌, leb, ◌==◌, Option, none, some, Text, text, ◌===◌,
  if◌then◌else◌, List, [], ◌∷◌, ◌++◌, get_or, is_empty, is_digit,
}
use veckomenyn.Base.Assoc.{Assoc, lookup}

pub data Lang : Type 0 where
  sv en : Lang

pub record Dictionaries : Type 0 where
  pub sv : Assoc Text
  pub en : Assoc Text

abbrev pub dictionary : Dictionaries → Lang → Assoc Text
dictionary d sv = d.sv
dictionary d en = d.en

abbrev pub same_lang : Lang → Lang → Bool
same_lang sv sv = true
same_lang en en = true
same_lang _ _ = false

-- The module's state; `notified` counts the rounds of calls of the listeners.
pub record LangState : Type 0 where
  pub current : Lang
  pub notified : ℕ

unfoldable pub set_lang : Lang → LangState → LangState
set_lang l s =
    if same_lang l s.current then s else record { current = l; notified = s.notified + 1 }

-- `\w`
abbrev pub is_word : ℕ → Bool
is_word c = (leb b'a' c && leb c b'z') || (leb b'A' c && leb c b'Z') || is_digit c || c == b'_'

-- What the replacer returns for `{name}`. A value of `params` is the text that `String` makes of it.
abbrev pub value_of : Assoc Text → Text → Text
value_of params name = get_or (lookup name params) (123 ∷ name ++ (125 ∷ []))

-- The scan for /\{(\w+)\}/g. `scan` is outside of a match; `scan_name` has read a brace and the
-- letters `name`. Where the match fails, the brace is copied and the scan goes on behind it; the
-- letters cannot begin another match.
pub data Mode : Type 0 where
  outside : Mode
  inside : Text → Mode

abbrev pub pending : Mode → Text
pending outside = []
pending (inside name) = 123 ∷ name

-- One character: the text that it settles, and the next mode.
abbrev pub step : Assoc Text → Mode → ℕ → Text × Mode
step params outside c = if c == 123 then ([], inside []) else (c ∷ [], outside)
step params (inside name) c =
    if is_word c
    then ([], inside (name ++ c ∷ []))
    else if c == 125 && not (is_empty name)
    then (value_of params name, outside)
    else if c == 123
    then (123 ∷ name, inside [])
    else (123 ∷ name ++ c ∷ [], outside)

unfoldable pub fill_from : Assoc Text → Mode → Text → Text
fill_from params mode [] = pending mode
fill_from params mode (c ∷ s) = (step params mode c).0 ++ fill_from params (step params mode c).1 s

-- `raw.replace(/\{(\w+)\}/g, ...)`
unfoldable pub fill : Assoc Text → Text → Text
unfolding fill_from
fill params raw = fill_from params outside raw

-- `dictionaries[currentLang][key] ?? dictionaries.en[key] ?? key`
unfoldable pub raw_text : Dictionaries → LangState → Text → Text
raw_text d s key = get_or (lookup key (dictionary d s.current)) (get_or (lookup key d.en) key)

unfoldable pub t : Dictionaries → LangState → Text → Option (Assoc Text) → Text
unfolding raw_text fill
t d s key none = raw_text d s key
t d s key (some params) = fill params (raw_text d s key)
