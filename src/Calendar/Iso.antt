-- ===== src/Calendar/Iso.antt =====
-- The text of a date, read back.
use veckomenyn.Base.{
  ℕ, ◌+◌, ◌-◌, ◌*◌, ◌/◌, ◌%◌, ◌≤◌, ◌<◌, Bool, true, ◌≡◌, refl, ap, ap₂, ◌∙◌, some, [], ◌∷◌, show,
  ltb, leb, value, show_digit, show_two, show_four, is_digit, Bool-cases, inl, inr, arith,
}
use veckomenyn.Calendar.{Date, checked, month_length, is_leap, pad, format_iso, parse_iso}
use veckomenyn.Calendar.Days.{IsDate}

pad-show : (n : ℕ) → n < 100 → pad (show n) ≡ (48 + n / 10) ∷ (48 + n % 10) ∷ []
pad-show n h = elim (Bool-cases (ltb n 10)) [
  | inl e ↦ rw (show_digit n (ground arith)) (ap₂ (λ a b. a ∷ b ∷ []) (ground arith) (ground arith))
  | inr e ↦ rw (show_two n (ground arith) h) refl
]

month_length_le : (b : Bool) (m : ℕ) → month_length b m ≤ 31
unfolding month_length
month_length_le b m = ground arith

-- The ten characters of a date.
format_iso_lem :
    (d : Date)
    → IsDate d
    → 1000 ≤ d.year
    → d.year < 10000
    → format_iso d
      ≡ (48 + d.year / 1000)
        ∷ (48 + d.year / 100 % 10)
        ∷ (48 + d.year / 10 % 10)
        ∷ (48 + d.year % 10)
        ∷ 45
        ∷ (48 + (d.month + 1) / 10)
        ∷ (48 + (d.month + 1) % 10)
        ∷ 45
        ∷ (48 + d.date / 10)
        ∷ (48 + d.date % 10)
        ∷ []
unfolding format_iso
format_iso_lem d (h, l, u) k m =
    let date_le = month_length_le (is_leap d.year) d.month in
    rw (show_four d.year k m) (
      rw (pad-show (d.month + 1) (omega arith))
        (rw (pad-show d.date (omega (arith, date_le, u))) refl))

checked_lem : (d : Date) → IsDate d → checked d ≡ some d
checked_lem d (h, l, u) = ground arith

is_digit_lem : (n : ℕ) → n < 10 → is_digit (48 + n) ≡ true
is_digit_lem n h = ground arith

parse_iso_lem :
    (a b c d e f g h : ℕ) (x : Date)
    → a < 10
    → b < 10
    → c < 10
    → d < 10
    → e < 10
    → f < 10
    → g < 10
    → h < 10
    → IsDate x
    → ((a * 10 + b) * 10 + c) * 10 + d ≡ x.year
    → e * 10 + f ≡ x.month + 1
    → g * 10 + h ≡ x.date
    → parse_iso (
        (48 + a)
        ∷ (48 + b)
        ∷ (48 + c)
        ∷ (48 + d)
        ∷ 45
        ∷ (48 + e)
        ∷ (48 + f)
        ∷ 45
        ∷ (48 + g)
        ∷ (48 + h)
        ∷ [])
      ≡ some x
unfolding parse_iso
parse_iso_lem a b c d e f g h x ha hb hc hd he hf hg hh k i j l =
    let month_given : leb 1 (value ((48 + e) ∷ (48 + f) ∷ [])) ≡ true = ground (arith, j) in
    let year_eq : value ((48 + a) ∷ (48 + b) ∷ (48 + c) ∷ (48 + d) ∷ []) ≡ x.year =
      omega (arith, i) in
    let month_eq : value ((48 + e) ∷ (48 + f) ∷ []) - 1 ≡ x.month = omega (arith, j) in
    let date_eq : value ((48 + g) ∷ (48 + h) ∷ []) ≡ x.date = omega (arith, l) in
    rw
      (
        is_digit_lem a ha,
        is_digit_lem b hb,
        is_digit_lem c hc,
        is_digit_lem d hd,
        is_digit_lem e he,
        is_digit_lem f hf,
        is_digit_lem g hg,
        is_digit_lem h hh,
        month_given,
      )
      (ap checked (λ r. record { year = year_eq r; month = month_eq r; date = date_eq r })
        ∙ checked_lem x k)

-- A date of a year from 1000 to 9999 is printed and read back as itself.
pub parse_iso-format_iso :
    (d : Date) → IsDate d → 1000 ≤ d.year → d.year < 10000 → parse_iso (format_iso d) ≡ some d
parse_iso-format_iso d (h, l, u) k m =
    let date_le = month_length_le (is_leap d.year) d.month in
    rw (format_iso_lem d (h, l, u) k m) (
      parse_iso_lem (d.year / 1000) (d.year / 100 % 10) (d.year / 10 % 10) (d.year % 10)
        ((d.month + 1) / 10) ((d.month + 1) % 10) (d.date / 10) (d.date % 10) d (omega arith)
        (omega arith) (omega arith) (omega arith) (omega arith) (omega arith)
        (omega (arith, date_le, u)) (omega arith) (h, l, u) (omega arith) (omega arith)
        (omega arith))
