-- ===== src/Updates.antt =====
-- web/src/components/UpdateBanner.tsx: the banner of a new version, what dismisses it, and the update that it
-- starts. Times are milliseconds.
pub mod Dismissed
pub mod Applied
mod Tests
use veckomenyn.Base.{
  ℕ, ◌+◌, ◌-◌, ◌*◌, Bool, true, false, not, ◌&&◌, ◌||◌, ltb, Option, none, some, get_or, List, [],
  ◌∷◌, Text, text, ◌===◌, is_empty, if◌then◌else◌, ◌⊎◌, inl, inr,
}
use veckomenyn.Api.Admin.{UpdateStatus}

pub data ApplyState : Type 0 where
  idle applying waiting failed : ApplyState

-- The closure of `tick`.
pub record Poll : Type 0 where
  pub target : Text
  pub started : ℕ

-- `dismissed_key` and `upgraded_from_key` are the two storages' items; `poll` is there while a timer or a
-- request of `tick` is under way.
pub record Banner : Type 0 where
  pub status : Option UpdateStatus
  pub dismissed : Text
  pub dismissed_key : Option Text
  pub upgraded_from_key : Option Text
  pub apply_state : ApplyState
  pub apply_error : Option Text
  pub upgraded_from : Option Text
  pub upgraded_to : Option Text
  pub poll : Option Poll
  pub reloads : ℕ

-- A page load; the two items are what the storages hold.
abbrev pub mount : Option Text → Option Text → Banner
mount dismissed_key upgraded_from_key = record {
  status = none;
  dismissed = get_or dismissed_key [];
  dismissed_key = dismissed_key;
  upgraded_from_key = upgraded_from_key;
  apply_state = idle;
  apply_error = none;
  upgraded_from = none;
  upgraded_to = none;
  poll = none;
  reloads = 0;
}

-- The effect of the page load, when the version comes. A marker that is absent or empty ends it before.
unfoldable pub on_version : Text → Banner → Banner
on_version version s =
    let from = get_or s.upgraded_from_key [] in
    let done : Banner = record s { upgraded_from_key = none } in
    if is_empty from
    then s
    else if not (is_empty version) && not (version === from)
    then record done { upgraded_from = some from; upgraded_to = some version }
    else done

-- The effect on `status.latest` and `dismissed`.
abbrev pub forget : Text → Banner → Banner
forget latest s =
    if not (is_empty latest) && not (is_empty s.dismissed) && not (latest === s.dismissed)
    then record s { dismissed_key = none; dismissed = [] }
    else s

-- `fetchStatus`, when the status comes.
unfoldable pub on_status : UpdateStatus → Banner → Banner
on_status status s = forget status.latest (record s { status = some status })

abbrev pub shows_for : Option UpdateStatus → Text → Bool
shows_for none dismissed = false
shows_for (some status) dismissed = status.has_update && not (dismissed === status.latest)

-- Whether the banner is there.
unfoldable pub shows_banner : Banner → Bool
shows_banner s = shows_for s.status s.dismissed

-- `onDismiss`
unfoldable pub dismiss : UpdateStatus → Banner → Banner
dismiss status s = record s { dismissed_key = some status.latest; dismissed = status.latest }

-- `onApply`, up to its request
unfoldable pub apply : UpdateStatus → Banner → Banner
apply status s = record s {
  apply_state = applying;
  apply_error = none;
  upgraded_from_key = some status.current;
}

-- The rest of `onApply`: `inl` is the time at which the request succeeded, `inr` the message of its error.
unfoldable pub on_applied : UpdateStatus → ℕ ⊎ Text → Banner → Banner
on_applied status (inr message) s = record s {
  upgraded_from_key = none;
  apply_error = some message;
  apply_state = failed;
}
on_applied status (inl now) s = record s {
  apply_state = waiting;
  poll = some (record { target = status.latest; started = now });
}

abbrev pub timeout : ℕ
timeout = 5 * 60 * 1000

-- What `getVersion` said of the target; a server that does not answer has not said it.
abbrev is_target : Text → Option Text → Bool
is_target target none = false
is_target target (some version) = version === target

-- `tick` at a time, with the version it is answered.
unfoldable pub tick : ℕ → Option Text → Option Poll → Banner → Banner
tick now version none s = s
tick now version (some p) s =
    if ltb timeout (now - p.started)
    then record s {
      apply_error = some (text "update.apply_timeout");
      apply_state = failed;
      poll = none;
    }
    else if is_target p.target version
    then record s { reloads = s.reloads + 1; poll = none }
    else s

abbrev pub tick_all : List (ℕ × Option Text) → Banner → Banner
tick_all [] s = s
tick_all ((now, version) ∷ ts) s = tick_all ts (tick now version s.poll s)
