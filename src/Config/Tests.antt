-- ===== src/Config/Tests.antt =====
-- Runs of the configuration reader on small inputs, and the theorems at such inputs.
use fastiron_tofu.Prelude.{
  ℕ, ◌≡◌, ◌↔◌, ◌≤◌, refl, true, false, List, [], ◌∷◌, map, ap, ◌≢◌, String, not, ◌==◌, Option, none,
  some, Bytes, codes, Result, ok, err, message, ◌>>=◌, arith, bytes_eq, has_prefix, All, keep,
  length, places, if◌then◌else◌,
}
use fastiron_tofu.Config.Command.{
  Command, Document, ParsedCommand, PortId, no_parse, empty_document, vlan_header, jumbo_mode,
  lag_header, default_vlan, interface_stanza,
}
use fastiron_tofu.Config.Words.{command_fields}
use fastiron_tofu.Config.Words.Split.{command_fields-split_words, split_words}
use fastiron_tofu.Config.PortId.{parse_ethernet_port}
use fastiron_tofu.Config.Document.{parse, with_last_newline, require_complete, reader}
use fastiron_tofu.Config.Document.Lines.{
  parse-read_until_complete, read_until_complete, lines_behind,
}
use fastiron_tofu.Config.Document.Shape.{parse-IsWellScoped, IsWellScoped}
use fastiron_tofu.Config.Globals.{
  vlans, jumbo, lldp, has_lag, default_vlan_id, jumbo_role, lldp_role, is_default_vlan,
  is_lag_header,
}
use fastiron_tofu.Config.Globals.Laws.{
  jumbo-once, lldp-once, once, has_lag_iff, default_vlan_id_iff, SetsDefault,
}
use fastiron_tofu.Config.Globals.Vlans.{vlans-MapsVlans, MapsVlans}
use fastiron_tofu.Config.Interface.{interface_header, is_interface}
use fastiron_tofu.Config.Interface.Header.{interface_header-at_most_one, at_most_one}
use fastiron_tofu.Config.Ports.{resolve_ports, PortMap}
use fastiron_tofu.Config.Ports.Complete.{resolve_ports-IsComplete, IsComplete, HasDistinctIds}
use fastiron_tofu.Config.Select.{for_selected}
use fastiron_tofu.Config.Sift.{kept_texts, owned_commands}

abbrev fields_example : Bytes
fields_example = codes " vlan 20\tname  voice "

command_fields-split_words_example : command_fields fields_example ≡ split_words [] fields_example
command_fields-split_words_example = command_fields-split_words fields_example

fields_of_vlan :
    command_fields fields_example ≡ codes "vlan" ∷ codes "20" ∷ codes "name" ∷ codes "voice" ∷ []
unfolding command_fields
fields_of_vlan = refl

port_canonical :
    parse_ethernet_port (codes "1/2/13") ≡ (record { stack = 1; slot = 2; port = 13 }, true)
unfolding parse_ethernet_port
port_canonical = refl

port_leading_zero : (parse_ethernet_port (codes "1/02/3")).1 ≡ false
unfolding parse_ethernet_port
port_leading_zero = refl

port_too_large : (parse_ethernet_port (codes "1/1/18446744073709551616")).1 ≡ false
unfolding parse_ethernet_port
port_too_large = refl

-- A parser that knows VLAN headers only.
abbrev sample_parser : Bytes → ParsedCommand
sample_parser line = record no_parse {
  kind = if has_prefix (codes "vlan") line then vlan_header else 0;
}

abbrev sample_text : Bytes
sample_text =
    codes "show\nver 08\n!\nvlan 2\n untagged ethe 1/1/1\n  x\nbanner motd #\n a\n#\nend\nrest"

abbrev texts : Result Document → List Bytes
texts (ok d) = map (λ c. c.text) d.commands
texts (err e) = []

abbrev parents : Result Document → List (Option ℕ)
parents (ok d) = map (λ c. c.parent) d.commands
parents (err e) = []

parse_sample :
    texts (parse sample_parser sample_text)
    ≡ codes "ver 08"
      ∷ codes "vlan 2"
      ∷ codes " untagged ethe 1/1/1"
      ∷ codes "  x"
      ∷ codes "banner motd #\n a\n#"
      ∷ codes "end"
      ∷ []
unfolding reader
parse_sample = refl

parents_sample :
    parents (parse sample_parser sample_text) ≡ none ∷ none ∷ some 1 ∷ some 2 ∷ none ∷ none ∷ []
unfolding reader
parents_sample = refl

-- A banner may end a document only behind its delimiter.
parse_unfinished :
    parse sample_parser (codes "ver 1\nbanner #\nend\n")
    ≡ err (message "FastIron configuration output is incomplete")
unfolding reader
parse_unfinished = refl

abbrev parsed_or : Document → Result Document → Document
parsed_or d (ok e) = e
parsed_or d (err e) = d

parse-IsWellScoped_example :
    IsWellScoped (parsed_or empty_document (parse sample_parser sample_text))
unfolding reader
parse-IsWellScoped_example = parse-IsWellScoped sample_parser sample_text refl

parse-read_until_complete_example : parse sample_parser sample_text ≡ (
    read_until_complete sample_parser
      (lines_behind [] (with_last_newline sample_text))
      empty_document
    >>= require_complete)
parse-read_until_complete_example = parse-read_until_complete sample_parser sample_text

-- A valid top-level command of a kind, with its number and name.
abbrev command : ℕ → ℕ → String → Command
command kind number name = record {
  text = codes name;
  fields = [];
  parent = none;
  indent = 0;
  parsed = record no_parse { kind = kind; valid = true; number = number; name = codes name };
}

abbrev document : List Command → Document
document cs = record empty_document { commands = cs; complete = true }

abbrev sample : Document
sample = document (
    command vlan_header 20 "vlan 20"
    ∷ command jumbo_mode 0 "jumbo"
    ∷ command interface_stanza 0 "ethernet 1/1/1"
    ∷ command lag_header 3 "lag 3"
    ∷ command default_vlan 7 "default-vlan-id 7"
    ∷ command vlan_header 30 "vlan 30"
    ∷ [])

abbrev sample_vlans : List (ℕ × ℕ)
sample_vlans = (30, 5) ∷ (20, 0) ∷ []

vlans_of_sample : vlans sample ≡ ok sample_vlans
unfolding vlans
vlans_of_sample = refl

vlans-MapsVlans_example : MapsVlans sample.commands sample_vlans
vlans-MapsVlans_example = vlans-MapsVlans sample vlans_of_sample

has_lag_iff_example : (has_lag sample 3 ≡ ok true) ↔ (
    (1 ≤ 3)
    × All (λ c. (c.valid ≡ true) × (1 ≤ c.number)) (keep is_lag_header sample.commands)
    × (length (keep (λ c. c.number == 3) (keep is_lag_header sample.commands)) ≡ 1))
has_lag_iff_example = has_lag_iff sample 3 true

lag_of_sample : has_lag sample 3 ≡ ok true
unfolding has_lag for_selected
lag_of_sample = refl

default_vlan_id_iff_example :
    (default_vlan_id sample ≡ ok 7) ↔ SetsDefault 7 (keep is_default_vlan sample.commands)
default_vlan_id_iff_example = default_vlan_id_iff sample 7

default_of_sample : default_vlan_id sample ≡ ok 7
unfolding default_vlan_id for_selected
default_of_sample = refl

jumbo-once_example : jumbo sample ≡ (
    once false
      (λ _. true)
      "native jumbo configuration is malformed or repeated"
      (owned_commands jumbo_role 0 sample.commands)
    >>= λ b. ok (b, kept_texts jumbo_role 0 sample.commands))
jumbo-once_example = jumbo-once sample

lldp-once_example : lldp sample ≡ (
    once true
      (λ c. not c.negated)
      "native global LLDP configuration is malformed or repeated"
      (owned_commands lldp_role 0 sample.commands)
    >>= λ b. ok (b, kept_texts lldp_role 0 sample.commands))
lldp-once_example = lldp-once sample

interface_header-at_most_one_example :
    interface_header sample (codes "ethernet 1/1/1")
    ≡ at_most_one (places (is_interface (codes "ethernet 1/1/1")) 0 sample.commands)
interface_header-at_most_one_example = interface_header-at_most_one sample (codes "ethernet 1/1/1")

interface_of_sample : interface_header sample (codes "ethernet 1/1/1") ≡ ok (some 2)
unfolding interface_header bytes_eq
interface_of_sample = refl

abbrev port : ℕ → PortId
port n = record { stack = 1; slot = 1; port = n }

abbrev sample_ports : PortMap
sample_ports = (codes "b", port 2) ∷ (codes "a", port 1) ∷ (codes "c", port 9) ∷ []

abbrev members : Command
members = record (command lag_header 0 "ports") {
  parsed = record no_parse { port_ranges = record { first = port 1; last = port 2 } ∷ [] };
}

resolve_members : resolve_ports members sample_ports ≡ ok (codes "b" ∷ codes "a" ∷ [])
unfolding resolve_ports
resolve_members = refl

port-ne : (a b : ℕ) → a ≢ b → port a ≢ port b
port-ne a b h e = h (ap (λ p. p.port) e)

sample_ports-HasDistinctIds : HasDistinctIds sample_ports
sample_ports-HasDistinctIds = (
  (port-ne 2 1 (omega arith), (port-ne 2 9 (omega arith), tt)),
  ((port-ne 1 9 (omega arith), tt), (tt, tt)),
)

resolve_ports-IsComplete_example :
    All (IsComplete sample_ports (codes "b" ∷ codes "a" ∷ [])) members.port_ranges
resolve_ports-IsComplete_example =
    resolve_ports-IsComplete members sample_ports (codes "b" ∷ codes "a" ∷ [])
      sample_ports-HasDistinctIds ((omega arith, omega arith), tt) refl resolve_members
