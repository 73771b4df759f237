-- ===== src/Markdown/Tests.antt =====
-- Texts with and without a heading.
use veckomenyn.Base.{◌≡◌, refl, ◌∷◌, ◌++◌, Text, text, trim, ◌===◌}
use veckomenyn.Markdown.{
  line_of, rest_of, skip_newlines, after_hash, leading_heading, collapse, normalize,
  strip_matching_leading_h1,
}
use veckomenyn.Markdown.Heading.{strip_matching_leading_h1-name}

-- Texts without capitals
abbrev keep : Text → Text
keep s = s

abbrev recipe : Text
recipe = text "# fish soup" ++ 10 ∷ 10 ∷ text "boil"

strip_other : strip_matching_leading_h1 keep recipe (text "fish") ≡ recipe
unfolding strip_matching_leading_h1 leading_heading after_hash line_of rest_of skip_newlines
    normalize collapse trim ◌===◌
strip_other = refl

strip_spaces : strip_matching_leading_h1 keep recipe (text "fish  soup ") ≡ text "boil"
unfolding strip_matching_leading_h1 leading_heading after_hash line_of rest_of skip_newlines
    normalize collapse trim ◌===◌
strip_spaces = refl

strip_name :
    strip_matching_leading_h1 keep (text "# soup" ++ 10 ∷ 10 ∷ text "boil") (text "soup")
    ≡ skip_newlines (10 ∷ text "boil")
strip_name = strip_matching_leading_h1-name keep 115 (text "oup") (10 ∷ text "boil") refl refl
