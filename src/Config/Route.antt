-- ===== src/Config/Route.antt =====
-- internal/config/route_parser.go: `parseRoute`, the machine `route`.
pub mod Bounds
pub mod States
pub mod Keys
pub mod Transitions
use fastiron_tofu.Prelude.{
  ℕ, Bool, true, false, ◌&&◌, ◌++◌, ◌∷◌, [], some, Bytes, slice, leb, ltb, ◌==◌, if◌then◌else◌, ◌^◌,
}
use fastiron_tofu.Ragel.{Machine, Flow, go, run}
use fastiron_tofu.Config.Command.{RouteSyntax}
use fastiron_tofu.Config.Numbers.{parse_below, parse_int64}
use fastiron_tofu.Config.Route.States.{
  route_key_offsets, route_single_lengths, route_range_lengths, route_index_offsets,
}
use fastiron_tofu.Config.Route.Keys.{route_actions, route_trans_keys}
use fastiron_tofu.Config.Route.Transitions.{route_indicies, route_trans_targs, route_trans_actions}

abbrev pub route_machine : Machine
route_machine = record {
  actions = route_actions;
  key_offsets = route_key_offsets;
  trans_keys = route_trans_keys;
  single_lengths = route_single_lengths;
  range_lengths = route_range_lengths;
  index_offsets = route_index_offsets;
  indicies = some route_indicies;
  trans_targs = route_trans_targs;
  trans_actions = route_trans_actions;
  start = 1;
  first_final = 139;
  error = some 0;
}

pub record RouteState : Type 0 where
  pub start : ℕ
  pub route : RouteSyntax
  pub valid : Bool

abbrev set_distance : ℕ × Bool → RouteState → RouteState
set_distance (value, fits) s = record s {
  route = record s.route { distance = value };
  valid = s.valid && fits && leb 1 value && leb value 255;
}

abbrev check_cost : ℕ × Bool → RouteState → RouteState
check_cost (value, fits) s = record s { valid = s.valid && fits && leb 1 value && leb value 16 }

-- The actions by their numbers.
pub route_action : Bytes → ℕ → ℕ → RouteState → RouteState
route_action input p a s =
    let text = slice input s.start p in
    if a == 0
    then record s { start = p }
    else if a == 1
    then record s { route = record s.route { prefix = text } }
    else if a == 2
    then record s { route = record s.route { mask = text } }
    else if a == 3
    then record s { route = record s.route { gateway = text } }
    else if a == 4
    then record s { route = record s.route { options = true } }
    else if a == 5
    then set_distance (parse_int64 text) s
    else if a == 6
    then check_cost (parse_below (2 ^ 8) text) s
    else if a == 7
    then record s { valid = s.valid && (parse_below (2 ^ 32) text).1 }
    else record s { route = record s.route { ignored = true } }

abbrev pub no_route : RouteSyntax
no_route = record {
  prefix = [];
  mask = [];
  gateway = [];
  distance = 1;
  options = false;
  ignored = false;
}

unfoldable pub parse_route : Bytes → RouteSyntax × Bool
unfolding route_action run parse_below parse_int64
parse_route input =
    let text = input ++ b'\n' ∷ [] in
    let (cs, s) =
      run route_machine (λ a p s. go (route_action text p a s)) text 0 1
        (record { start = 0; route = no_route; valid = true }) in
    (s.route, s.valid && leb 139 cs)
