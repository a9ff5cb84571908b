-- ===== src/Config/Syntax.antt =====
-- internal/config/command_parser.go: `parseCommand`, the machine `syntax`, which recognises a
-- command and captures its arguments.
pub mod States
pub mod Keys
pub mod Targets
pub mod Actions
mod Tests
pub mod Bounds
use Prim.Native.Nat.{bit_and, bit_or}
use fastiron_tofu.Prelude.{
  get_or, ◌||◌, ℕ, Bool, true, false, ◌&&◌, List, ◌++◌, ◌∷◌, [], none, some, Bytes, codes, slice,
  leb, ltb, ◌==◌, if◌then◌else◌, trim_right, is_blank,
}
use fastiron_tofu.Ragel.{Machine, Flow, go, run}
use fastiron_tofu.Config.Command.{
  RouteSyntax, ParsedCommand, PortRange, PortId, DnsAddress, no_parse, static_route, spanning_tree,
  inline_power, inline_power_port, unknown,
}
use fastiron_tofu.Config.CommandKind.{command_kind}
use fastiron_tofu.Config.Words.{command_fields}
use fastiron_tofu.Config.Numbers.{parse_int64}
use fastiron_tofu.Config.PortId.{parse_ethernet_port}
use fastiron_tofu.Config.Route.{parse_route}
use fastiron_tofu.Config.Syntax.States.{
  syntax_key_offsets, syntax_single_lengths, syntax_range_lengths, syntax_index_offsets,
}
use fastiron_tofu.Config.Syntax.Keys.{syntax_actions, syntax_trans_keys}
use fastiron_tofu.Config.Syntax.Targets.{syntax_trans_targs}
use fastiron_tofu.Config.Syntax.Actions.{syntax_trans_actions}

abbrev pub syntax_machine : Machine
syntax_machine = record {
  actions = syntax_actions;
  key_offsets = syntax_key_offsets;
  trans_keys = syntax_trans_keys;
  single_lengths = syntax_single_lengths;
  range_lengths = syntax_range_lengths;
  index_offsets = syntax_index_offsets;
  indicies = none;
  trans_targs = syntax_trans_targs;
  trans_actions = syntax_trans_actions;
  start = 1;
  first_final = 768;
  error = some 0;
}

pub record SyntaxState : Type 0 where
  pub parsed : ParsedCommand
  pub start : ℕ
  pub lag_start : ℕ
  pub number_valid : Bool

-- `strings.Join(words, " ")`
unfoldable pub join_words : List Bytes → Bytes
join_words [] = []
join_words (w ∷ []) = w
join_words (w ∷ v ∷ more) = w ++ (b' ' ∷ join_words (v ∷ more))

abbrev pub set_number : ℕ × Bool → SyntaxState → SyntaxState
set_number (value, fits) s = record s {
  parsed = record s.parsed { number = value };
  number_valid = s.number_valid && fits;
}

-- `portRanges = append(portRanges, portRange{first: id, last: id})`
abbrev pub first_port : PortId × Bool → SyntaxState → SyntaxState
first_port (id, valid) s = record s {
  parsed = record s.parsed {
    port_ranges = s.parsed.port_ranges ++ record { first = id; last = id } ∷ [];
  };
  number_valid = s.number_valid && valid;
}

-- `portRanges[len(portRanges)-1].last = id`; the grammar has a first port before every last one.
pub set_last_port : PortId → List PortRange → List PortRange
set_last_port id [] = []
set_last_port id (r ∷ []) = record r { last = id } ∷ []
set_last_port id (r ∷ q ∷ more) = r ∷ set_last_port id (q ∷ more)

abbrev pub last_port : PortId × Bool → SyntaxState → SyntaxState
last_port (id, valid) s = record s {
  parsed = record s.parsed { port_ranges = set_last_port id s.parsed.port_ranges };
  number_valid = s.number_valid && valid;
}

-- `dns[len(dns)-1].dynamic = true`
pub set_last_dynamic : List DnsAddress → List DnsAddress
set_last_dynamic [] = []
set_last_dynamic (a ∷ []) = record a { dynamic = true } ∷ []
set_last_dynamic (a ∷ b ∷ more) = a ∷ set_last_dynamic (b ∷ more)

-- What the actions make of a state, by their numbers: 0 to 11, numbers, names and the families of access lists.
pub argument_states : Bytes → ℕ → SyntaxState → List SyntaxState
unfolding join_words
argument_states text p s =
    (record s { start = p })
    ∷ (set_number (parse_int64 text) s)
    ∷ (record s { parsed = record s.parsed { name = text } })
    ∷ (record s { parsed = record s.parsed { unit = text } })
    ∷ (record s { parsed = record s.parsed { options = true } })
    ∷ (record s { parsed = record s.parsed { name = join_words (command_fields text) } })
    ∷ (record s { parsed = record s.parsed { family = codes "ipv4_standard" } })
    ∷ (record s { parsed = record s.parsed { family = codes "ipv4_extended" } })
    ∷ (record s { parsed = record s.parsed { family = codes "ipv6" } })
    ∷ (record s { parsed = record s.parsed { family = codes "mac" } })
    ∷ (record s { parsed = record s.parsed { global = true } })
    ∷ (record s { parsed = record s.parsed { name = codes "version" } })
    ∷ []

-- 12 to 22: ports and LLDP.
pub port_list_states : Bytes → SyntaxState → List SyntaxState
unfolding set_last_port
port_list_states text s =
    let med = s.parsed.med in
    (first_port (parse_ethernet_port text) s)
    ∷ (last_port (parse_ethernet_port text) s)
    ∷ (record s { parsed = record s.parsed { all_ports = true } })
    ∷ (record s { parsed = record s.parsed { med = record med { traffic = codes "untagged" } } })
    ∷ (record s {
      parsed = record s.parsed { med = record med { traffic = codes "priority-tagged" } };
    })
    ∷ (record s { parsed = record s.parsed { med = record med { traffic = codes "tagged" } } })
    ∷ (record s { parsed = record s.parsed { med = record med { vlan = s.parsed.number } } })
    ∷ (record s { parsed = record s.parsed { med = record med { priority = s.parsed.number } } })
    ∷ (record s { parsed = record s.parsed { med = record med { dscp = s.parsed.number } } })
    ∷ (record s { parsed = record s.parsed { negated = true } })
    ∷ (record s { parsed = record s.parsed { direction = text } })
    ∷ []

-- `numberValid && parsed.poeFields & mask == 0`, with the field's own bit set.
abbrev pub claim_poe_field : ℕ → ℕ → SyntaxState → SyntaxState
claim_poe_field mask bit s = record s {
  parsed = record s.parsed { poe_fields = bit_or s.parsed.poe_fields bit };
  number_valid = s.number_valid && bit_and s.parsed.poe_fields mask == 0;
}

-- 23 to 33: inline power, spanning tree, aggregates and DNS.
pub feature_states : Bytes → Bytes → ℕ → SyntaxState → List SyntaxState
unfolding set_last_dynamic trim_right
feature_states text lag_text p s =
    let poe = s.parsed.poe in
    (let t = claim_poe_field 1 1 s in
      record t { parsed = record t.parsed { poe = record poe { priority = s.parsed.number } } })
    ∷ (let t = claim_poe_field 6 2 s in
        record t {
          parsed = record t.parsed { poe = record poe { power_by_class = s.parsed.number } };
        })
    ∷ (let t = claim_poe_field 6 4 s in
        record t {
          parsed = record t.parsed {
            poe = record poe { power_limit_milliwatts = s.parsed.number };
          };
        })
    ∷ (record s { parsed = record s.parsed { poe = record poe { enabled = false } } })
    ∷ (record s { parsed = record s.parsed { family = codes "rstp" } })
    ∷ (record s { lag_start = p })
    ∷ (record s { parsed = record s.parsed { family = text; name = trim_right is_blank lag_text } })
    ∷ (record s { parsed = record s.parsed { negated = true } })
    ∷ (record s {
      parsed = record s.parsed {
        dns = s.parsed.dns ++ record { address = text; dynamic = false } ∷ [];
      };
    })
    ∷ (record s { parsed = record s.parsed { dns = set_last_dynamic s.parsed.dns } })
    ∷ (record s { parsed = record s.parsed { family = text } })
    ∷ []

-- The switch: what action `a` makes, and the same state at a number that is none.
pub syntax_action : Bytes → ℕ → ℕ → SyntaxState → SyntaxState
unfolding argument_states port_list_states feature_states
syntax_action input p a s =
    let text = slice input s.start p in
    get_or
      (argument_states text p s
        ++ (port_list_states text s ++ feature_states text (slice input s.lag_start s.start) p s))
      a s

-- What is known before the machine runs.
unfoldable pub initial_parse : Bytes → ParsedCommand
initial_parse input =
    let kind = command_kind input in
    let parsed = record no_parse { kind = kind } in
    if kind == spanning_tree
    then record parsed { family = codes "stp"; number = 32768 }
    else if kind == inline_power || kind == inline_power_port
    then record parsed {
      poe = record { enabled = true; priority = 3; power_by_class = 0; power_limit_milliwatts = 0 };
    }
    else parsed

abbrev recognised : ℕ × SyntaxState → ParsedCommand
recognised (cs, s) = record s.parsed { valid = leb 768 cs && s.number_valid }

abbrev pub start_syntax : Bytes → SyntaxState
start_syntax input = record {
  parsed = initial_parse input;
  start = 0;
  lag_start = 0;
  number_valid = true;
}

abbrev routed : ParsedCommand → RouteSyntax × Bool → ParsedCommand
routed parsed (route, valid) = record parsed { route = route; valid = valid }

-- `parseCommand`
unfoldable pub parse_command : Bytes → ParsedCommand
unfolding syntax_action initial_parse command_kind parse_route run parse_int64 parse_ethernet_port
    command_fields
parse_command input =
    let kind = command_kind input in
    let text = input ++ b'\n' ∷ [] in
    if kind == static_route
    then routed (record no_parse { kind = kind }) (parse_route input)
    else if kind == unknown
    then record no_parse { kind = kind }
    else recognised
        (run syntax_machine (λ a p s. go (syntax_action text p a s)) text 0 1 (start_syntax input))
