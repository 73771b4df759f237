-- ===== src/Settings/Tests.antt =====
-- Runs of the settings, and the theorems at concrete inputs.
use veckomenyn.Base.{◌≡◌, refl, true, false, some, List, [], ◌∷◌, ◌++◌, text}
use veckomenyn.Api.Http.{pos}
use veckomenyn.Api.Types.{HouseholdSettings, swedish, english}
use veckomenyn.I18n.{sv}
use veckomenyn.Settings.{
  Settings, flush, update, set_shown, Event, edit, timer_ends, stored, answered, refused, lost,
  toggled, step, run,
}
use veckomenyn.Settings.Patch.{
  dinners, servings, language, notes, no_patch, applied, edited, patch_of, merged, is_empty_patch,
  edit_all,
}
use veckomenyn.Settings.Saved.{edits_of, run-edit_all, run-settings}
use veckomenyn.Settings.Overtaken.{load_late, run-load_late}
use veckomenyn.Settings.Refused.{update-refused}

abbrev household : HouseholdSettings
household = record {
  default_dinners = 5;
  default_delivery_weekday = 1;
  default_order_offset_days = pos 2;
  default_servings = 4;
  language = swedish;
  llm_provider = text "anthropic";
  notes_md = [];
}

abbrev shows_household : Settings
shows_household = record {
  is_shown = true;
  settings = some household;
  loaded = true;
  pending = no_patch;
  timer = false;
  lang = record { current = sv; notified = 0 };
  requests = [];
  answers = [];
  errors = [];
  server = household;
}

-- Two edits leave in one patch, a third while it is under way, and the modal is closed over a fourth.
abbrev changes : List Event
changes =
    edit (dinners 6)
    ∷ edit (language english)
    ∷ timer_ends
    ∷ edit (dinners 7)
    ∷ stored 0
    ∷ timer_ends
    ∷ edit (notes (text "eggs"))
    ∷ toggled false
    ∷ toggled true
    ∷ stored 0
    ∷ stored 0
    ∷ answered 0
    ∷ stored 0
    ∷ answered 0
    ∷ answered 0
    ∷ answered 0
    ∷ []

run-settings_example :
    ((run changes shows_household).settings ≡ some (run changes shows_household).server)
    × ((run changes shows_household).settings ≡ some (edit_all (edits_of changes) household))
unfolding step flush update set_shown applied patch_of merged is_empty_patch edited
run-settings_example =
    run-settings changes shows_household
      (
        tt,
        (
          tt,
          (
            tt,
            (
              tt,
              (
                refl,
                (tt, (tt, (tt, (tt, (refl, (refl, (refl, (refl, (refl, (refl, (refl, tt))))))))))),
              ),
            ),
          ),
        ),
      )
      refl refl refl refl refl refl refl

-- The same edits, where one answer overtakes another and one is lost.
abbrev jumbled : List Event
jumbled =
    edit (dinners 6)
    ∷ timer_ends
    ∷ edit (dinners 7)
    ∷ timer_ends
    ∷ stored 0
    ∷ stored 0
    ∷ answered 1
    ∷ lost 0 (text "offline")
    ∷ []

run-edit_all_example : (run jumbled shows_household).server ≡ edit_all (edits_of jumbled) household
unfolding step flush update set_shown applied patch_of merged is_empty_patch edited
run-edit_all_example =
    run-edit_all jumbled shows_household (tt, (tt, (tt, (tt, (refl, (refl, (tt, (tt, tt)))))))) refl
      refl refl refl

run-load_late_example :
    let after = run (load_late (dinners 6)) shows_household in
    (after.server ≡ edited (dinners 6) household)
    × (after.settings ≡ some household)
    × (after.loaded ≡ true)
    × (is_empty_patch after.pending ≡ true)
    × (after.timer ≡ false)
    × (after.requests ≡ [])
    × (after.answers ≡ [])
unfolding is_empty_patch
run-load_late_example = run-load_late (dinners 6) shows_household refl refl refl

update-refused_example :
    let after =
      run (edit (servings 2) ∷ timer_ends ∷ refused 0 (text "offline") ∷ []) shows_household in
    (after.errors ≡ [] ++ text "offline" ∷ [])
    × (after.settings ≡ some (edited (servings 2) household))
    × (after.server ≡ household)
    × (is_empty_patch after.pending ≡ true)
    × (after.timer ≡ false)
    × (after.requests ≡ [])
update-refused_example =
    update-refused (servings 2) shows_household household (text "offline") refl refl
