-- ===== src/Updates/Tests.antt =====
-- An update at concrete inputs.
use veckomenyn.Base.{
  ℕ, zero, suc, ◌+◌, ◌≡◌, refl, inl, true, false, not, ◌&&◌, Option, none, some, List, [], ◌∷◌,
  Text, text, ◌===◌, length, arith,
}
use veckomenyn.Api.Admin.{UpdateStatus}
use veckomenyn.Updates.{
  Banner, mount, on_version, on_status, shows_banner, dismiss, apply, on_applied, tick_all,
}
use veckomenyn.Updates.Dismissed.{on_statuses, dismiss-on_status}
use veckomenyn.Updates.Applied.{IsPaced, IsOver, on_applied-ends, apply-on_version}

abbrev newer : UpdateStatus
newer = record {
  current = text "1.0.0";
  latest = text "1.1.0";
  has_update = true;
  url = [];
  can_apply = true;
  auto_enabled = false;
}

abbrev page : Banner
page = mount none none

-- Ticks that no server answers, each two seconds behind the one before.
abbrev ticks : ℕ → ℕ → List (ℕ × Option Text)
ticks now zero = []
ticks now (suc n) = (now, none) ∷ ticks (now + 2000) n

ticks-IsPaced : (n now : ℕ) → IsPaced now (ticks now n)
ticks-IsPaced zero now = tt
ticks-IsPaced (suc n) now = (omega arith, ticks-IsPaced n (now + 2000))

length-ticks : (n now : ℕ) → length (ticks now n) ≡ n
length-ticks zero now = refl
length-ticks (suc n) now = omega (arith, length-ticks n (now + 2000))

on_applied-ends_example : IsOver 0 (tick_all (ticks 3000 150) (on_applied newer (inl 0) page))
on_applied-ends_example =
    on_applied-ends newer 0 (ticks 3000 150) page (ticks-IsPaced 150 3000)
      (omega (arith, length-ticks 150 3000))

dismiss-on_status_example :
    let before = on_statuses (newer ∷ newer ∷ []) (dismiss newer page) in
    let kept = on_status newer before in
    let loaded = on_status newer (mount before.dismissed_key before.upgraded_from_key) in
    (shows_banner kept ≡ (newer.has_update && not (newer.latest === newer.latest)))
    × (shows_banner loaded ≡ shows_banner kept)
dismiss-on_status_example =
    dismiss-on_status newer newer (newer ∷ newer ∷ []) page (refl, (refl, tt))

apply-on_version_example :
    let before =
      tick_all ((3000, some (text "1.1.0")) ∷ []) (on_applied newer (inl 0) (apply newer page)) in
    let after = on_version newer.latest (mount before.dismissed_key before.upgraded_from_key) in
    (after.upgraded_from ≡ some newer.current)
    × (after.upgraded_to ≡ some newer.latest)
    × (after.upgraded_from_key ≡ none)
unfolding ◌===◌
apply-on_version_example =
    apply-on_version newer 0 ((3000, some (text "1.1.0")) ∷ []) page refl refl refl
