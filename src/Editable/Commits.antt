-- ===== src/Editable/Commits.antt =====
-- When an editor saves.
use veckomenyn.Base.{
  ◌≤◌, ◌≡◌, ◌≢◌, ◌⊎◌, inl, inr, refl, Bool, true, false, ltb, ◌==◌, Option, none, some, List, [],
  ◌∷◌, Text, text, ◌===◌, ===_iff, arith, Bool-cases, ◌↔◌,
}
use veckomenyn.Editable.{
  Editor, Key, mount, commit, settle, handle_key, is_enabled, is_commit_key, Event, click,
  type_text, press, leave, settled, new_value, step, run, select,
}

-- At most one call is awaited; the input is disabled exactly while one is, and is shown then.
pub record IsSingle (s : Editor) : Type 0 where
  pub one : s.awaited ≤ 1
  pub disabled : s.saving ≡ ltb 0 s.awaited
  pub shown : s.saving ≡ true → s.editing ≡ true

commit-IsSingle : (s : Editor) → is_enabled s ≡ true → IsSingle s → IsSingle (commit s)
unfolding commit
commit-IsSingle s e h = elim (Bool-cases (s.draft === s.value)) [
  | inl same ↦
      rw same (record { one = h.one; disabled = h.disabled; shown = λ b. ground (arith, b, e) })
  | inr other ↦ rw other (record {
    one = ground (arith, h.disabled);
    disabled = ground (arith, h.disabled);
    shown = λ b. ground (arith, e);
  })
]

handle_key-IsSingle :
    (multiline : Bool) (k : Key) (s : Editor)
    → is_enabled s ≡ true
    → IsSingle s
    → IsSingle (handle_key multiline k s)
unfolding handle_key
handle_key-IsSingle multiline k s e h = elim (Bool-cases (is_commit_key multiline k)) [
  | inl entered ↦ rw entered (commit-IsSingle s e h)
  | inr not_entered ↦ rw not_entered (elim (Bool-cases (k.key === text "Escape")) [
    | inl escape ↦
        rw escape (record { one = h.one; disabled = h.disabled; shown = λ b. ground (arith, b, e) })
    | inr other ↦ rw other h
  ])
]

settle-IsSingle : (ok : Bool) (s : Editor) → IsSingle s → IsSingle (settle ok s)
settle-IsSingle true s h = record {
  one = ground (arith, h.one);
  disabled = ground (arith, h.one);
  shown = λ b. ground (arith, b);
}
settle-IsSingle false s h = record {
  one = ground (arith, h.one);
  disabled = ground (arith, h.one);
  shown = λ b. ground (arith, b);
}

step-IsSingle :
    (multiline : Bool) (ev : Event) (s : Editor) → IsSingle s → IsSingle (step multiline ev s)
unfolding step
step-IsSingle multiline click s h = record { one = h.one; disabled = h.disabled; shown = λ b. refl }
step-IsSingle multiline (type_text t) s h = elim (Bool-cases (is_enabled s)) [
  | inl e ↦ rw e (record { one = h.one; disabled = h.disabled; shown = h.shown })
  | inr off ↦ rw off h
]
step-IsSingle multiline (press k) s h = elim (Bool-cases (is_enabled s)) [
  | inl e ↦ rw e (handle_key-IsSingle multiline k s e h)
  | inr off ↦ rw off h
]
step-IsSingle multiline leave s h = elim (Bool-cases (is_enabled s)) [
  | inl e ↦ rw e (commit-IsSingle s e h)
  | inr off ↦ rw off h
]
step-IsSingle multiline (settled ok) s h = elim (Bool-cases (s.awaited == 0)) [
  | inl none_awaited ↦ rw none_awaited h
  | inr awaits ↦ rw awaits (settle-IsSingle ok s h)
]
step-IsSingle multiline (new_value v) s h = elim (Bool-cases (v === s.value)) [
  | inl same ↦ rw same h
  | inr other ↦ rw other (record { one = h.one; disabled = h.disabled; shown = h.shown })
]

run-IsSingle :
    (multiline : Bool) (es : List Event) (s : Editor) → IsSingle s → IsSingle (run multiline es s)
run-IsSingle multiline [] s h = h
run-IsSingle multiline (e ∷ es) s h =
    run-IsSingle multiline es (step multiline e s) (step-IsSingle multiline e s h)

-- Whatever the user does and whenever the calls are settled, at most one call of `onCommit` is awaited,
-- and the input is there and disabled exactly while one is.
pub run-mount-IsSingle :
    (multiline : Bool) (value : Text) (es : List Event) → IsSingle (run multiline es (mount value))
run-mount-IsSingle multiline value es =
    run-IsSingle multiline es (mount value)
      (record { one = ground arith; disabled = refl; shown = λ b. ground (arith, b) })

-- A day is committed exactly where it is another one than the value, and no day only where the field may
-- be empty.
pub select_lem :
    (nullable : Bool) (value iso : Option Text)
    → (select nullable value iso ≡ some iso) ↔ ((iso ≢ value) × ((iso ≢ none) ⊎ (nullable ≡ true)))
unfolding select
select_lem true none none = ground arith
select_lem false none none = ground arith
select_lem true (some value) none = ground arith
select_lem false (some value) none = ground arith
select_lem nullable none (some iso) = ground arith
select_lem nullable (some value) (some iso) = ground (arith, ===_iff iso value)
