-- ===== src/Config/Ports/Parsed.antt =====
-- resolvePorts on the port ranges that parseCommand gives.
use fastiron_tofu.Prelude.{◌≡◌, true, false, List, [], ◌∷◌, Bytes, ok, All, subst, sym}
use fastiron_tofu.Config.Command.{Command, PortRange}
use fastiron_tofu.Config.Ports.{PortMap, resolve_ports}
use fastiron_tofu.Config.Ports.Complete.{
  IsComplete, IsParsedRange, HasDistinctIds, resolve_ports-IsComplete,
}
use fastiron_tofu.Config.Syntax.{parse_command}
use fastiron_tofu.Config.Syntax.Bounds.{HasPorts, parse_command-HasPorts}

HasPorts-IsParsedRange : (spans : List PortRange) → HasPorts spans → All IsParsedRange spans
HasPorts-IsParsedRange [] h = tt
HasPorts-IsParsedRange (span ∷ more) ((first, last), h) =
    ((first.1.1.0, last.1.1.1), HasPorts-IsParsedRange more h)

-- Where a command has what parseCommand gives for a text, is valid and names its ports, and the
-- inventory has no port twice, ranges that resolve are complete: every port number of every range
-- belongs to an inventory entry of that stack and slot whose name is in the result.
pub parse_command-IsComplete :
    (text : Bytes) (c : Command) (ports : PortMap) (names : List Bytes)
    → c.parsed ≡ parse_command text
    → c.valid ≡ true
    → c.all_ports ≡ false
    → HasDistinctIds ports
    → resolve_ports c ports ≡ ok names
    → All (IsComplete ports names) c.port_ranges
parse_command-IsComplete text c ports names read valid explicit distinct h =
    let captured =
      subst (λ p. p.valid ≡ true → HasPorts p.port_ranges) (sym read) (parse_command-HasPorts text)
        valid in
    resolve_ports-IsComplete c ports names distinct (HasPorts-IsParsedRange c.port_ranges captured)
      explicit h
