-- ===== src/Config/Ports.antt =====
-- internal/config/ports.go: `resolvePorts`, and the inventory maps that lag.go, lldp_ports.go and
-- lldp_med.go build for it. A map is a list of entries, in the order in which it is ranged over.
pub mod Hits
pub mod Complete
pub mod Parsed
mod Tests
use fastiron_tofu.Prelude.{
  ℕ, ◌+◌, ◌-◌, ◌%◌, ◌≡◌, Bool, true, false, not, ◌&&◌, ◌||◌, List, [], ◌∷◌, ◌++◌, map, Option, none,
  some, Bytes, codes, String, Result, ok, err, message, ◌>>=◌, ◌>>◌, reject_if, leb, ltb, length,
  ◌==◌, if◌then◌else◌, bytes_eq, cut_prefix, keep, has_text,
}
use fastiron_tofu.Config.Command.{Command, PortId, PortRange}
use fastiron_tofu.Config.Numbers.{u64_limit}
use fastiron_tofu.Config.PortId.{parse_ethernet_port}

abbrev pub PortMap : Type 0
PortMap = List (Bytes × PortId)

abbrev pub names_of : PortMap → List Bytes
names_of ports = map (λ p. p.0) ports

-- The entries that the loop over the map does not pass over.
unfoldable pub in_range : PortRange → Bytes × PortId → Bool
in_range span (name, id) = not (
    not (id.stack == span.first.stack)
    || not (id.slot == span.first.slot)
    || ltb id.port span.first.port
    || ltb span.last.port id.port)

abbrev pub is_bad_range : PortRange → Bool
is_bad_range span =
    not (span.first.stack == span.last.stack)
    || not (span.first.slot == span.last.slot)
    || ltb span.last.port span.first.port

-- `span.last[2] - span.first[2] + 1` in 64 bits, where the last is not below the first.
abbrev pub range_size : PortRange → ℕ
range_size span = (span.last.port - span.first.port + 1) % u64_limit

unfoldable pub resolve_ranges : List PortRange → PortMap → List Bytes → Result (List Bytes)
resolve_ranges [] ports names = ok names
resolve_ranges (span ∷ more) ports names = do
  reject_if (is_bad_range span) "native port range is invalid or crosses a slot"
  let found = names_of (keep (in_range span) ports)
  reject_if (not (length found == range_size span))
      "interface inventory omits a port referenced by native configuration"
  resolve_ranges more ports (names ++ found)

-- `resolvePorts`
unfoldable pub resolve_ports : Command → PortMap → Result (List Bytes)
unfolding resolve_ranges in_range
resolve_ports c ports =
    if c.all_ports then ok (names_of ports) else resolve_ranges c.port_ranges ports []

-- `strings.CutPrefix(name, "ethernet ")` and the port behind it, or none where one of them fails.
unfoldable pub ethernet_id : Bytes → Option PortId
unfolding cut_prefix
ethernet_id name = elim (cut_prefix (codes "ethernet ") name) [
  | none ↦ none
  | some raw ↦ (let (id, valid) = parse_ethernet_port raw in if valid then some id else none)
]

-- The loop over the inventory, with the two messages of the caller.
unfoldable pub inventory : String → String → List Bytes → PortMap → Result PortMap
unfolding ethernet_id has_text
inventory invalid repeated [] ports = ok ports
inventory invalid repeated (name ∷ names) ports = elim (ethernet_id name) [
  | none ↦ err (message invalid)
  | some id ↦
      reject_if (has_text name (names_of ports)) repeated
      >> inventory invalid repeated names (ports ++ (name, id) ∷ [])
]
