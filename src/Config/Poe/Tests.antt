-- ===== src/Config/Poe/Tests.antt =====
-- Inline-power policies of small documents.
use fastiron_tofu.Prelude.{◌≡◌, refl, true, [], ◌∷◌, none, Bytes, codes, ok, err, message, ◌++◌}
use fastiron_tofu.Config.Command.{Command, Document, PoePolicy, empty_document}
use fastiron_tofu.Config.PortId.{parse_ethernet_port}
use fastiron_tofu.Config.Document.{make_command}
use fastiron_tofu.Config.Interface.{interface_header}
use fastiron_tofu.Config.Syntax.{parse_command}
use fastiron_tofu.Config.Poe.{poe}
use fastiron_tofu.Config.Poe.Policy.{HasPoe, poe-HasPoe}

abbrev port_power : Command
port_power =
    make_command parse_command (codes "inline power ethernet 1/1/2 priority 1 power-limit 15400") []
      none 0

abbrev powered : Document
powered = record empty_document { commands = port_power ∷ [] }

abbrev port_policy : PoePolicy
port_policy = record {
  enabled = true;
  priority = 1;
  power_by_class = 0;
  power_limit_milliwatts = 15400;
}

port_policy_read : poe powered (codes "ethernet 1/1/2") ≡ ok (port_policy, [])
unfolding poe make_command parse_command interface_header
port_policy_read = refl

poe-HasPoe_example :
    (raw : Bytes) × ((codes "ethernet 1/1/2" ≡ codes "ethernet " ++ raw)
      × (((parse_ethernet_port raw).1 ≡ true) × HasPoe powered raw port_policy []))
poe-HasPoe_example = poe-HasPoe powered (codes "ethernet 1/1/2") port_policy [] port_policy_read

two_policies_refused :
    poe (record powered { commands = port_power ∷ port_power ∷ [] }) (codes "ethernet 1/1/2")
    ≡ err (message "native PoE policy is malformed or repeated")
unfolding poe make_command parse_command interface_header
two_policies_refused = refl
