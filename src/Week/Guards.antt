-- ===== src/Week/Guards.antt =====
-- What the guards of a week keep from happening.
use veckomenyn.Base.{
  ◌≤◌, ◌≡◌, ◌≢◌, ◌↔◌, ◌⊎◌, inl, inr, refl, Bool, true, false, ltb, some, List, [], ◌∷◌, Text, All,
  arith, Bool-cases, length, keep_if,
}
use veckomenyn.Api.Types.{Status, draft, cart_built, ordered, WeekDetail, Dinner}
use veckomenyn.Week.{index_of, is_backward_transition, pick, text_lt, asks, commit_end}

-- A pick in the menu of the status takes effect for the other statuses only, and for an earlier one
-- exactly where the user confirms it.
pub pick_lem :
    (confirmed : Bool) (current s : Status)
    → (pick confirmed current s ≡ some s)
      ↔ ((s ≢ current) × ((index_of current ≤ index_of s) ⊎ (confirmed ≡ true)))
unfolding pick is_backward_transition
pick_lem true draft draft = ground arith
pick_lem true draft cart_built = ground arith
pick_lem true draft ordered = ground arith
pick_lem true cart_built draft = ground arith
pick_lem true cart_built cart_built = ground arith
pick_lem true cart_built ordered = ground arith
pick_lem true ordered draft = ground arith
pick_lem true ordered cart_built = ground arith
pick_lem true ordered ordered = ground arith
pick_lem false draft draft = ground arith
pick_lem false draft cart_built = ground arith
pick_lem false draft ordered = ground arith
pick_lem false cart_built draft = ground arith
pick_lem false cart_built cart_built = ground arith
pick_lem false cart_built ordered = ground arith
pick_lem false ordered draft = ground arith
pick_lem false ordered cart_built = ground arith
pick_lem false ordered ordered = ground arith

text_lt_trans : (a b c : Text) → text_lt c b ≡ false → text_lt b a ≡ false → text_lt c a ≡ false
unfolding text_lt
text_lt_trans [] b c h k = refl
text_lt_trans (x ∷ a) [] c h k = ground arith
text_lt_trans (x ∷ a) (y ∷ b) [] h k = ground arith
text_lt_trans (x ∷ a) (y ∷ b) (z ∷ c) h k = ground (arith, text_lt_trans a b c)

-- The days of the dinners are not after `v`.
abbrev pub Within : Text → List Dinner → Type 0
Within v = All (λ (d : Dinner). text_lt v d.day_date ≡ false)

Within-le : (v end : Text) (ds : List Dinner) → text_lt v end ≡ false → Within end ds → Within v ds
Within-le v end [] h k = tt
Within-le v end (d ∷ ds) h k = (text_lt_trans d.day_date end v h k.0, Within-le v end ds h k.1)

Within-lost :
    (v : Text) (ds : List Dinner)
    → ltb 0 (length (keep_if (λ (d : Dinner). text_lt v d.day_date) ds)) ≡ false
    → Within v ds
Within-lost v [] h = tt
Within-lost v (d ∷ ds) h =
    let here : text_lt v d.day_date ≡ false = ground arith in
    (here, Within-lost v ds (ground (arith, h)))

-- In a week whose dinners all lie before its end, a new last day that is committed where the user would
-- refuse a question cuts no dinner off.
pub commit_end-Within :
    {N : Type 0} (v : Text) (w : WeekDetail N)
    → Within w.summary.end_date w.dinners
    → commit_end false (some v) w ≡ some v
    → Within v w.dinners
unfolding commit_end asks
commit_end-Within v w h e = elim (Bool-cases (text_lt v w.summary.end_date)) [
  | inl earlier ↦ Within-lost v w.dinners (ground arith)
  | inr later ↦ Within-le v w.summary.end_date w.dinners later h
]
