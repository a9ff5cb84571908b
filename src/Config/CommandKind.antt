-- ===== src/Config/CommandKind.antt =====
-- internal/config/command_parser.go: `commandKind`, the machine `command`.
pub mod States
pub mod Keys
pub mod Transitions
pub mod Keywords
mod Tests
use fastiron_tofu.Prelude.{none, ℕ, List, [], ◌∷◌, some, Bytes, get_or, ltb, if◌then◌else◌}
use fastiron_tofu.Ragel.{Machine, Flow, go, run}
use fastiron_tofu.Config.Command.{
  Kind, unknown, acl_header, admin_disable, default_vlan, dns_servers, inline_power,
  inline_power_port, interface_stanza, interface_vrf, jumbo_mode, lag_header, lag_ports, lldp_med,
  lldp_ports, lldp_run, multicast_config, ospf_area, ospf_binding, ospf_option, ospf_router,
  port_name, protected_port, spanning_tree, static_route, storm_limit, stp_bpdu, stp_edge, stp_root,
  symmetric_flow_control, trust_dscp, vlan_header, voice_vlan,
}
use fastiron_tofu.Config.CommandKind.States.*
use fastiron_tofu.Config.CommandKind.Keys.*
use fastiron_tofu.Config.CommandKind.Transitions.*

abbrev pub command_machine : Machine
command_machine = record {
  actions = command_actions;
  key_offsets = command_key_offsets;
  trans_keys = command_trans_keys;
  single_lengths = command_single_lengths;
  range_lengths = command_range_lengths;
  index_offsets = command_index_offsets;
  indicies = none;
  trans_targs = command_trans_targs;
  trans_actions = command_trans_actions;
  start = 1;
  first_final = 295;
  error = some 0;
}

-- The kind that each action sets, by the number of the action.
abbrev pub action_kinds : List Kind
action_kinds =
    dns_servers ∷ interface_vrf ∷ ospf_router ∷ ospf_area ∷ ospf_binding ∷ ospf_option
    ∷ static_route ∷ stp_edge ∷ stp_root ∷ stp_bpdu ∷ spanning_tree ∷ inline_power_port
    ∷ inline_power ∷ trust_dscp ∷ protected_port ∷ voice_vlan ∷ lldp_run ∷ lldp_med ∷ lldp_ports
    ∷ jumbo_mode ∷ port_name ∷ admin_disable ∷ default_vlan ∷ vlan_header ∷ lag_header ∷ lag_ports
    ∷ interface_stanza ∷ acl_header ∷ multicast_config ∷ symmetric_flow_control ∷ storm_limit ∷ []

unfoldable pub kind_action : ℕ → ℕ → Kind → Flow Kind
kind_action a p kind = go (get_or action_kinds a kind)

unfoldable pub command_kind : Bytes → Kind
unfolding kind_action run
command_kind input =
    let (cs, kind) = run command_machine kind_action input 0 1 unknown in
    if ltb cs 295 then unknown else kind
