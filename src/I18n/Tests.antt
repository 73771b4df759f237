-- ===== src/I18n/Tests.antt =====
-- The translation of web/src/i18n on concrete texts.
use veckomenyn.Base.{◌≡◌, refl, none, Text, text, ◌===◌, List, [], ◌∷◌, All, arith}
use veckomenyn.Base.Assoc.{Assoc, lookup}
use veckomenyn.I18n.{sv, en, LangState, raw_text, t}
use veckomenyn.I18n.Fill.{Piece, plain, placeholder, IsPiece}
use veckomenyn.I18n.Complete.{dictionaries, contains, placeholders, placeholders-raw_text}

abbrev swedish : LangState
swedish = record { current = sv; notified = 0 }

abbrev english : LangState
english = record { current = en; notified = 1 }

abbrev count : Assoc Text
count = (text "count", text "3") ∷ []

abbrev pieces : List Piece
pieces = plain (text "Delete ") ∷ placeholder (text "count") ∷ placeholder (text "rest") ∷ []

pieces-IsPiece : All IsPiece pieces
pieces-IsPiece = ground arith

placeholders-raw_text_example :
    contains
      (placeholders (raw_text dictionaries swedish (text "week.unlock_confirm")))
      (text "target")
    ≡ contains
        (placeholders (raw_text dictionaries english (text "week.unlock_confirm")))
        (text "target")
placeholders-raw_text_example =
    placeholders-raw_text swedish english (text "week.unlock_confirm") (text "target")

t_cancel : t dictionaries swedish (text "plan.cancel") none ≡ text "Avbryt"
unfolding t raw_text lookup ◌===◌
t_cancel = refl
