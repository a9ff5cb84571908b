-- ===== src/Config/Ports/Tests.antt =====
-- Ranges of a command resolved in an inventory.
use fastiron_tofu.Prelude.{
  ◌≡◌, ◌≢◌, refl, ℕ, ap, true, false, [], ◌∷◌, none, Bytes, codes, ok, All, arith,
}
use fastiron_tofu.Config.Command.{Command, PortId}
use fastiron_tofu.Config.Syntax.{parse_command}
use fastiron_tofu.Config.Ports.{PortMap, resolve_ports}
use fastiron_tofu.Config.Ports.Complete.{IsComplete, HasDistinctIds}
use fastiron_tofu.Config.Ports.Parsed.{parse_command-IsComplete}

abbrev lldp_text : Bytes
lldp_text = codes "lldp enable receive ports ethe 1/1/1 to 1/1/2"

abbrev lldp_command : Command
lldp_command = record {
  text = lldp_text;
  fields = [];
  parent = none;
  indent = 0;
  parsed = parse_command lldp_text;
}

abbrev port : ℕ → PortId
port n = record { stack = 1; slot = 1; port = n }

abbrev two_ports : PortMap
two_ports = (codes "a", port 1) ∷ (codes "b", port 2) ∷ []

port-ne : (a b : ℕ) → a ≢ b → port a ≢ port b
port-ne a b h e = h (ap (λ p. p.port) e)

two_ports-HasDistinctIds : HasDistinctIds two_ports
two_ports-HasDistinctIds = ((port-ne 1 2 (omega arith), tt), (tt, tt))

two_resolved : resolve_ports lldp_command two_ports ≡ ok (codes "a" ∷ codes "b" ∷ [])
unfolding resolve_ports parse_command
two_resolved = refl

lldp_valid : lldp_command.valid ≡ true
unfolding parse_command
lldp_valid = refl

lldp_explicit : lldp_command.all_ports ≡ false
unfolding parse_command
lldp_explicit = refl

parse_command-IsComplete_example :
    All (IsComplete two_ports (codes "a" ∷ codes "b" ∷ [])) lldp_command.port_ranges
parse_command-IsComplete_example =
    parse_command-IsComplete lldp_text lldp_command two_ports (codes "a" ∷ codes "b" ∷ []) refl
      lldp_valid lldp_explicit two_ports-HasDistinctIds two_resolved
