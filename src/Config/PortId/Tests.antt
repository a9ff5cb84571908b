-- ===== src/Config/PortId/Tests.antt =====
-- Texts that parseEthernetPort reads, and texts that it refuses.
use fastiron_tofu.Prelude.{true, false, ◌≡◌, refl, codes, arith}
use fastiron_tofu.Config.Command.{PortId}
use fastiron_tofu.Config.PortId.{parse_ethernet_port}
use fastiron_tofu.Config.PortId.Canonical.{
  InRange, port_text, parse_ethernet_port-port_text, parse_ethernet_port-injective,
}

abbrev port_1_2_13 : PortId
port_1_2_13 = record { stack = 1; slot = 2; port = 13 }

port_1_2_13-InRange : InRange port_1_2_13
port_1_2_13-InRange =
    ((omega arith, omega arith), ((omega arith, omega arith), (omega arith, omega arith)))

leading_zero_refused : (parse_ethernet_port (codes "1/02/3")).1 ≡ false
unfolding parse_ethernet_port
leading_zero_refused = refl

overflow_refused : (parse_ethernet_port (codes "1/1/18446744073709551616")).1 ≡ false
unfolding parse_ethernet_port
overflow_refused = refl

parse_ethernet_port-port_text_example :
    parse_ethernet_port (port_text port_1_2_13) ≡ (port_1_2_13, true)
parse_ethernet_port-port_text_example =
    parse_ethernet_port-port_text port_1_2_13 port_1_2_13-InRange

port_1_2_13-read : parse_ethernet_port (codes "1/2/13") ≡ (port_1_2_13, true)
unfolding parse_ethernet_port
port_1_2_13-read = refl

parse_ethernet_port-injective_example :
    InRange port_1_2_13 × (codes "1/2/13" ≡ port_text port_1_2_13)
parse_ethernet_port-injective_example =
    parse_ethernet_port-injective (codes "1/2/13") port_1_2_13 port_1_2_13-read
