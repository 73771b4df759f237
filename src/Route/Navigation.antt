-- ===== src/Route/Navigation.antt =====
-- What navigation and the listeners do to the window.
use veckomenyn.Base.{
  ℕ, suc, ◌≤◌, ◌<◌, ◌≡◌, refl, Bool, true, false, not, List, [], ◌∷◌, Text, arith, ◌===◌, ===_iff,
  length, ◌==◌, if◌then◌else◌,
}
use veckomenyn.Route.{
  Route, parse_route, route_to_path, Effect, push_state, replace_state, add_popstate,
  remove_popstate, notify, insert_listener, delete_listener, subscribe, unsubscribe, Target, route,
  target_path, navigate,
}
use veckomenyn.Route.Parse.{HasExactId, parse_route-route_to_path}

-- Whether the window has the handler of `popstate` after some effects.
abbrev pub popstate_after : List Effect → Bool → Bool
popstate_after [] b = b
popstate_after (add_popstate ∷ es) b = popstate_after es true
popstate_after (remove_popstate ∷ es) b = popstate_after es false
popstate_after (e ∷ es) b = popstate_after es b

-- The path of the window after some effects, but for `back`.
abbrev pub path_after : List Effect → Text → Text
path_after [] p = p
path_after (push_state q ∷ es) p = path_after es q
path_after (replace_state q ∷ es) p = path_after es q
path_after (e ∷ es) p = path_after es p

-- The entries that some effects add to the history.
abbrev pub entries_added : List Effect → ℕ
entries_added [] = 0
entries_added (push_state q ∷ es) = suc (entries_added es)
entries_added (e ∷ es) = entries_added es

-- A component mounts (subscribes) or unmounts.
pub data Op : Type 0 where
  mount unmount : ℕ → Op

abbrev pub run : List Op → List ℕ → Bool → List ℕ × Bool
run [] ls b = (ls, b)
run (mount cb ∷ ops) ls b = run ops (subscribe cb ls).1 (popstate_after (subscribe cb ls).0 b)
run (unmount cb ∷ ops) ls b = run ops (unsubscribe cb ls).1 (popstate_after (unsubscribe cb ls).0 b)

abbrev pub IsBound : List ℕ → Bool → Type 0
IsBound ls b = b ≡ not (length ls == 0)

length-insert_listener : (cb : ℕ) (ls : List ℕ) → 0 < length (insert_listener cb ls)
length-insert_listener cb [] = omega arith
length-insert_listener cb (l ∷ ls) = ground arith

subscribe-IsBound :
    (cb : ℕ) (ls : List ℕ) (b : Bool)
    → IsBound ls b
    → IsBound (subscribe cb ls).1 (popstate_after (subscribe cb ls).0 b)
unfolding subscribe
subscribe-IsBound cb ls b h = ground (arith, length-insert_listener cb ls)

length-delete_listener : (cb : ℕ) (ls : List ℕ) → length (delete_listener cb ls) ≤ length ls
length-delete_listener cb [] = omega arith
length-delete_listener cb (l ∷ ls) = ground (arith, length-delete_listener cb ls)

unsubscribe-IsBound :
    (cb : ℕ) (ls : List ℕ) (b : Bool)
    → IsBound ls b
    → IsBound (unsubscribe cb ls).1 (popstate_after (unsubscribe cb ls).0 b)
unfolding unsubscribe
unsubscribe-IsBound cb ls b h = ground (arith, length-delete_listener cb ls)

run-IsBound :
    (ops : List Op) (ls : List ℕ) (b : Bool)
    → IsBound ls b
    → IsBound (run ops ls b).0 (run ops ls b).1
run-IsBound [] ls b h = h
run-IsBound (mount cb ∷ ops) ls b h =
    run-IsBound ops (subscribe cb ls).1 (popstate_after (subscribe cb ls).0 b)
      (subscribe-IsBound cb ls b h)
run-IsBound (unmount cb ∷ ops) ls b h =
    run-IsBound ops (unsubscribe cb ls).1 (popstate_after (unsubscribe cb ls).0 b)
      (unsubscribe-IsBound cb ls b h)

-- However components mount and unmount, in any order and number, the window has the handler of
-- `popstate` exactly while there is a listener.
pub popstate-IsBound : (ops : List Op) → IsBound (run ops [] false).0 (run ops [] false).1
popstate-IsBound ops = run-IsBound ops [] false refl

path_after-notify : (ls : List ℕ) (p : Text) → path_after (notify ls) p ≡ p
unfolding notify
path_after-notify [] p = refl
path_after-notify (l ∷ ls) p = path_after-notify ls p

entries_added-notify : (ls : List ℕ) → entries_added (notify ls) ≡ 0
unfolding notify
entries_added-notify [] = refl
entries_added-notify (l ∷ ls) = entries_added-notify ls

path_after-navigate :
    (ls : List ℕ) (current : Text) (target : Target) (replace : Bool)
    → path_after (navigate ls current target replace) current ≡ target_path target
unfolding navigate
path_after-navigate ls current target true =
    ground (arith, ===_iff (target_path target) current, path_after-notify ls (target_path target))
path_after-navigate ls current target false =
    ground (arith, ===_iff (target_path target) current, path_after-notify ls (target_path target))

-- After `navigate(route)` the window shows the path that is parsed as the route, from any page; the
-- history grows by one entry, unless the page is the same or is replaced.
pub navigate_shows :
    (ls : List ℕ) (current : Text) (r : Route) (replace : Bool)
    → HasExactId r
    → (parse_route (path_after (navigate ls current (route r) replace) current) ≡ r)
      × (entries_added (navigate ls current (route r) replace)
          ≡ (if replace then 0 else if route_to_path r === current then 0 else 1))
navigate_shows ls current r replace h =
    (rw path_after-navigate (parse_route-route_to_path r h), entries replace)
  where
    entries :
        (b : Bool)
        → entries_added (navigate ls current (route r) b)
          ≡ (if b then 0 else if route_to_path r === current then 0 else 1)
    entries true = unfold navigate in ground (arith, entries_added-notify ls)
    entries false = unfold navigate in ground (arith, entries_added-notify ls)
