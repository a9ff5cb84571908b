-- ===== src/Config/Syntax/Tests.antt =====
-- Commands of a switch, as `parseCommand` reads them.
use fastiron_tofu.Prelude.{◌≤◌, ◌≡◌, refl, true, false, [], ◌∷◌, codes}
use fastiron_tofu.Config.Command.{no_parse}
use fastiron_tofu.Config.Syntax.{Bytes, parse_command}
use fastiron_tofu.Config.Syntax.Bounds.{HasPorts, parse_command-HasPorts}
use fastiron_tofu.Config.Command.{lldp_ports, static_route, lag_header, inline_power_port}
use fastiron_tofu.Config.Route.{no_route, parse_route}
use fastiron_tofu.Config.Route.Bounds.{parse_route-IsValid}
use fastiron_tofu.Config.MemberName.{lag_named_port}

lldp_of_range :
    parse_command (codes "lldp enable receive ports ethe 1/1/1 to 1/1/12") ≡ record no_parse {
      kind = lldp_ports;
      valid = true;
      direction = codes "receive";
      port_ranges =
          record {
            first = record { stack = 1; slot = 1; port = 1 };
            last = record { stack = 1; slot = 1; port = 12 };
          }
          ∷ [];
    }
unfolding parse_command
lldp_of_range = refl

lag_of_header : parse_command (codes "lag core net dynamic id 7") ≡ record no_parse {
  kind = lag_header;
  valid = true;
  name = codes "core net";
  family = codes "dynamic";
  number = 7;
}
unfolding parse_command
lag_of_header = refl

route_of_gateway :
    parse_command (codes "ip route 10.0.0.0/8 192.0.2.1 distance 20") ≡ record no_parse {
      kind = static_route;
      valid = true;
      route = record no_route {
        prefix = codes "10.0.0.0/8";
        gateway = codes "192.0.2.1";
        distance = 20;
      };
    }
unfolding parse_command
route_of_gateway = refl

poe_repeated :
    (parse_command (codes "inline power ethernet 1/1/2 priority 1 priority 2")).valid ≡ false
unfolding parse_command
poe_repeated = refl

poe_of_port :
    parse_command (codes "inline power ethernet 1/1/2 priority 1 power-limit 15400")
    ≡ record no_parse {
      kind = inline_power_port;
      valid = true;
      name = codes "1/1/2";
      number = 15400;
      poe_fields = 5;
      poe = record {
        enabled = true;
        priority = 1;
        power_by_class = 0;
        power_limit_milliwatts = 15400;
      };
    }
unfolding parse_command
poe_of_port = refl

other_command : parse_command (codes "hostname a") ≡ no_parse
unfolding parse_command
other_command = refl

named_port : lag_named_port (codes " port-name up link ethernet 1/1/3") ≡ codes "ethernet 1/1/3"
unfolding lag_named_port
named_port = refl

abbrev lldp_text : Bytes
lldp_text = codes "lldp enable receive ports ethe 1/1/1 to 1/1/12"

lldp_valid : (parse_command lldp_text).valid ≡ true
unfolding parse_command
lldp_valid = refl

parse_command-HasPorts_example : HasPorts (parse_command lldp_text).port_ranges
parse_command-HasPorts_example = parse_command-HasPorts lldp_text lldp_valid

parsed_distance : (parse_route (codes "ip route 10.0.0.0/8 192.0.2.1 distance 20")).1 ≡ true
unfolding parse_route
parsed_distance = refl

parse_route-IsValid_example :
    (1 ≤ (parse_route (codes "ip route 10.0.0.0/8 192.0.2.1 distance 20")).0.distance)
    × ((parse_route (codes "ip route 10.0.0.0/8 192.0.2.1 distance 20")).0.distance ≤ 255)
parse_route-IsValid_example =
    parse_route-IsValid (codes "ip route 10.0.0.0/8 192.0.2.1 distance 20") parsed_distance
