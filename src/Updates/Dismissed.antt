-- ===== src/Updates/Dismissed.antt =====
-- Which versions the banner is shown for.
use veckomenyn.Base.{
  ◌≡◌, refl, sym, ap, ◌∙◌, true, false, not, ◌&&◌, some, get_or, List, [], ◌∷◌, All, Text, ◌===◌,
  ===_iff, is_empty, Bool-cases, inl, inr, arith,
}
use veckomenyn.Api.Admin.{UpdateStatus}
use veckomenyn.Updates.{Banner, mount, on_status, shows_banner, dismiss}

===_sym : (a b : Text) → (a === b) ≡ (b === a)
===_sym a b = ground (arith, ===_iff a b, ===_iff b a)

===_filled : (l : Text) → is_empty l ≡ false → ([] === l) ≡ false
unfolding ◌===◌
===_filled [] e = cc
===_filled (c ∷ l) e = refl

shows_banner-on_status :
    (next : UpdateStatus) (s : Banner)
    → shows_banner (on_status next s) ≡ (next.has_update && not (next.latest === s.dismissed))
unfolding on_status shows_banner
shows_banner-on_status next s =
    elim (Bool-cases (
      not (is_empty next.latest)
      && not (is_empty s.dismissed)
      && not (next.latest === s.dismissed))) [
        | inl e ↦
            let filled : is_empty next.latest ≡ false = ground arith in
            let other : (next.latest === s.dismissed) ≡ false = ground arith in
            rw e (rw (===_filled next.latest filled) (rw other refl))
        | inr e ↦ rw e (ap (λ b. next.has_update && not b) (===_sym s.dismissed next.latest))
      ]

abbrev pub on_statuses : List UpdateStatus → Banner → Banner
on_statuses [] s = s
on_statuses (u ∷ us) s = on_statuses us (on_status u s)

on_status-dismissed :
    (u : UpdateStatus) (s : Banner)
    → u.latest ≡ s.dismissed
    → on_status u s ≡ record s { status = some u }
unfolding on_status
on_status-dismissed u s h =
    let same : (u.latest === s.dismissed) ≡ true = (===_iff u.latest s.dismissed).1 h in
    ground (arith, same)

-- The dismissal of a version, in the page and in its storage.
abbrev IsDismissed : Text → Banner → Type 0
IsDismissed v s = (s.dismissed ≡ v) × (s.dismissed_key ≡ some v)

on_statuses-IsDismissed :
    (v : Text) (us : List UpdateStatus) (s : Banner)
    → All (λ u. u.latest ≡ v) us
    → IsDismissed v s
    → IsDismissed v (on_statuses us s)
on_statuses-IsDismissed v [] s h k = k
on_statuses-IsDismissed v (u ∷ us) s h k =
    let same = on_status-dismissed u s (h.0 ∙ sym k.0) in
    on_statuses-IsDismissed v us (on_status u s) h.1
      (ap (λ (t : Banner). t.dismissed) same ∙ k.0, ap (λ (t : Banner). t.dismissed_key) same ∙ k.1)

-- A version was dismissed, and every status since then has named it as the latest, any number of them.
-- At the next status the banner is there exactly if there is an update and the status names another
-- version; and it is the same if the page was loaded again before that status.
pub dismiss-on_status :
    (status next : UpdateStatus) (seen : List UpdateStatus) (s : Banner)
    → All (λ u. u.latest ≡ status.latest) seen
    → let before = on_statuses seen (dismiss status s) in
      let kept = on_status next before in
      let loaded = on_status next (mount before.dismissed_key before.upgraded_from_key) in
      (shows_banner kept ≡ (next.has_update && not (next.latest === status.latest)))
      × (shows_banner loaded ≡ shows_banner kept)
unfolding dismiss
dismiss-on_status status next seen s h =
    let before = on_statuses seen (dismiss status s) in
    let (page, key) =
      on_statuses-IsDismissed status.latest seen (dismiss status s) h (refl, refl) in
    let loaded = mount before.dismissed_key before.upgraded_from_key in
    let same : loaded.dismissed ≡ before.dismissed = ap (λ o. get_or o []) key ∙ sym page in
    let shown = λ (v : Text). next.has_update && not (next.latest === v) in
    (
      shows_banner-on_status next before ∙ ap shown page,
      shows_banner-on_status next loaded ∙ ap shown same ∙ sym (shows_banner-on_status next before),
    )
