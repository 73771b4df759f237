-- ===== src/Preferences/Stored.antt =====
-- What the requests for preferences do to what is stored.
use veckomenyn.Base.{
  ◌≡◌, refl, ap, Bool, true, false, not, Option, none, some, get_or, [], ◌∷◌, Text, ◌===◌, is_space,
  all, trim, Bool-cases, inl, inr, arith,
}
use veckomenyn.Base.Assoc.{Assoc, lookup}
use veckomenyn.Preferences.{
  Operation, saving, creating, removing, Preferences, underscored, category_of, replaced,
  on_success,
}

abbrev pub category : Operation → Text
category (saving c body) = c
category (creating c selected) = c
category (removing c) = c

abbrev pub written : Operation → Option Text
written (saving c body) = some body
written (creating c selected) = some []
written (removing c) = none

-- The request that is under way succeeds.
abbrev pub answered : Preferences → Preferences
answered s = elim s.operation [ none ↦ s | some o ↦ on_success o s ]

lookup-replaced :
    (c body old : Text) (rows : Assoc Text)
    → lookup c rows ≡ some old
    → lookup c (replaced c body rows) ≡ some body
unfolding lookup
lookup-replaced c body old [] k = cc
lookup-replaced c body old ((j, w) ∷ rows) k = elim (Bool-cases (j === c)) [
  | inl e ↦ rw e refl
  | inr e ↦ rw e (lookup-replaced c body old rows (ground (arith, e, k)))
]

-- After the selected category was saved, the text that is shown for it is the one that was sent, not
-- one that was typed since. The category is among the rows.
pub on_success-draft :
    (c body old : Text) (rows : Assoc Text) (s : Preferences)
    → s.prefs ≡ some rows
    → lookup c rows ≡ some old
    → s.selected ≡ some c
    → (on_success (saving c body) s).draft ≡ body
unfolding on_success
on_success-draft c body old rows s h k e =
    rw h (rw e (ap (λ o. get_or o []) (lookup-replaced c body old rows k)))

underscored-all : (b : Bool) (s : Text) → all (λ c. not (is_space c)) (underscored b s) ≡ true
unfolding underscored
underscored-all b [] = refl
underscored-all true (c ∷ s) = ground (arith, underscored-all true s, underscored-all false s)
underscored-all false (c ∷ s) = ground (arith, underscored-all true s, underscored-all false s)

-- The name of a new category has no white space, whatever was typed.
pub category_of-all :
    (lower : Text → Text) (s : Text) → all (λ c. not (is_space c)) (category_of lower s) ≡ true
category_of-all lower s = underscored-all false (lower (trim s))
