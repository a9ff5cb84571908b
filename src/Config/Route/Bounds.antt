-- ===== src/Config/Route/Bounds.antt =====
-- The distance of a route that parseRoute accepts.
use fastiron_tofu.Prelude.{
  ℕ, ◌≤◌, ◌≡◌, refl, Bool, true, false, ◌&&◌, [], ◌∷◌, ◌++◌, Bytes, leb, ◌==◌, if◌then◌else◌, arith,
  ◌^◌, slice,
}
use fastiron_tofu.Ragel.Invariant.{run-keeps}
use fastiron_tofu.Config.Numbers.{parse_int64, parse_below}
use fastiron_tofu.Config.Route.{RouteState, route_machine, route_action, no_route, parse_route}

abbrev IsValidDistance : ℕ → Bool → Type 0
IsValidDistance distance valid = valid ≡ true → (1 ≤ distance) × (distance ≤ 255)

abbrev HasDistance : RouteState → Type 0
HasDistance s = IsValidDistance s.route.distance s.valid

distance_kept : (v fits : Bool) (n : ℕ) → IsValidDistance n (v && fits && leb 1 n && leb n 255)
distance_kept v fits n h = (ground arith, ground arith)

still_valid : (d : ℕ) (v w : Bool) → IsValidDistance d v → IsValidDistance d (v && w)
still_valid d true w h k = h refl
still_valid d false w h k = absurd (ground arith)

both_valid : (d : ℕ) (v w x y : Bool) → IsValidDistance d v → IsValidDistance d (v && w && x && y)
both_valid d true w x y h k = h refl
both_valid d false w x y h k = absurd (ground arith)

either {ℓ κ} :
    {S : Type ℓ} (P : S → Type κ) (b : Bool) {x y : S} → P x → P y → P (if b then x else y)
either P true h k = h
either P false h k = k

route_action-HasDistance :
    (input : Bytes) (a p : ℕ) (s : RouteState)
    → HasDistance s
    → HasDistance (route_action input p a s)
unfolding route_action
route_action-HasDistance input a p s h =
    let text = slice input s.start p in
    let wide = parse_int64 text in
    let cost = parse_below (2 ^ 8) text in
    either HasDistance (a == 0) h (
      either HasDistance (a == 1) h (
        either HasDistance (a == 2) h (
          either HasDistance (a == 3) h (
            either HasDistance (a == 4) h (
              either HasDistance (a == 5) (distance_kept s.valid wide.1 wide.0) (
                either HasDistance (a == 6)
                  (both_valid s.route.distance s.valid cost.1 (leb 1 cost.0) (leb cost.0 16) h)
                  (either HasDistance (a == 7)
                    (still_valid s.route.distance s.valid (parse_below (2 ^ 32) text).1 h) h)))))))

-- A route that parseRoute accepts has a distance from 1 to 255.
pub parse_route-IsValid :
    (input : Bytes)
    → (parse_route input).1 ≡ true
    → (1 ≤ (parse_route input).0.distance) × ((parse_route input).0.distance ≤ 255)
unfolding parse_route
parse_route-IsValid input ok =
    let text = input ++ b'\n' ∷ [] in
    run-keeps route_machine (λ a p s. route_action text p a s) HasDistance
      (λ a p s h. route_action-HasDistance text a p s h) text 0 1
      (record { start = 0; route = no_route; valid = true }) (λ _. (omega arith, omega arith))
      (ground arith)
