-- ===== src/Config/PortId.antt =====
-- internal/config/command_parser.go: `parseEthernetPort`, the machine `ethernet_port`, with
-- strconv.ParseUint(…, 10, 64).
pub mod Component
pub mod Numerals
pub mod Canonical
mod Tests
use fastiron_tofu.Prelude.{
  ℕ, zero, suc, ◌+◌, ◌-◌, ◌*◌, ◌^◌, Bool, true, false, ◌&&◌, [], ◌∷◌, ◌++◌, Option, none, some,
  Bytes, slice, leb, ltb, ◌==◌, if◌then◌else◌,
}
use fastiron_tofu.Ragel.{Machine, Flow, go, run}
use fastiron_tofu.Config.Command.{PortId}
use fastiron_tofu.Config.Numbers.{parse_uint64}

abbrev pub port_machine : Machine
port_machine = record {
  actions = 0 ∷ 1 ∷ 0 ∷ 1 ∷ 1 ∷ [];
  key_offsets = 0 ∷ 0 ∷ 2 ∷ 5 ∷ 7 ∷ 10 ∷ 12 ∷ 15 ∷ [];
  trans_keys = 49 ∷ 57 ∷ 47 ∷ 48 ∷ 57 ∷ 49 ∷ 57 ∷ 47 ∷ 48 ∷ 57 ∷ 49 ∷ 57 ∷ 10 ∷ 48 ∷ 57 ∷ [];
  single_lengths = 0 ∷ 0 ∷ 1 ∷ 0 ∷ 1 ∷ 0 ∷ 1 ∷ 0 ∷ [];
  range_lengths = 0 ∷ 1 ∷ 1 ∷ 1 ∷ 1 ∷ 1 ∷ 1 ∷ 0 ∷ [];
  index_offsets = 0 ∷ 0 ∷ 2 ∷ 5 ∷ 7 ∷ 10 ∷ 12 ∷ 15 ∷ [];
  indicies = none;
  trans_targs = 2 ∷ 0 ∷ 3 ∷ 2 ∷ 0 ∷ 4 ∷ 0 ∷ 5 ∷ 4 ∷ 0 ∷ 6 ∷ 0 ∷ 7 ∷ 6 ∷ 0 ∷ 0 ∷ [];
  trans_actions = 1 ∷ 0 ∷ 3 ∷ 0 ∷ 0 ∷ 1 ∷ 0 ∷ 3 ∷ 0 ∷ 0 ∷ 1 ∷ 0 ∷ 3 ∷ 0 ∷ 0 ∷ 0 ∷ [];
  start = 1;
  first_final = 7;
  error = some 0;
}

pub record PortState : Type 0 where
  pub start : ℕ
  pub index : ℕ
  pub id : PortId
  pub valid : Bool

-- `id[index] = value`
abbrev pub set_component : ℕ → ℕ → PortId → PortId
set_component zero value id = record id { stack = value }
set_component (suc zero) value id = record id { slot = value }
set_component (suc (suc zero)) value id = record id { port = value }
set_component _ value id = id

abbrev pub component_done : ℕ × Bool → PortState → PortState
component_done (value, fits) s = record s {
  id = set_component s.index value s.id;
  valid = s.valid && fits;
  index = suc s.index;
}

-- `action mark` is 0 and `action component` is 1.
pub port_action : Bytes → ℕ → ℕ → PortState → Flow PortState
unfolding parse_uint64
port_action input a p s = go (
    if a == 0
    then record s { start = p }
    else if a == 1
    then component_done (parse_uint64 (slice input s.start p)) s
    else s)

abbrev pub no_port : PortId
no_port = record { stack = 0; slot = 0; port = 0 }

unfoldable pub parse_ethernet_port : Bytes → PortId × Bool
unfolding port_action run
parse_ethernet_port input =
    let text = input ++ b'\n' ∷ [] in
    let (cs, s) =
      run port_machine (port_action text) text 0 1
        (record { start = 0; index = 0; id = no_port; valid = true }) in
    (s.id, s.valid && leb 7 cs)
