-- ===== src/Config/CommandKind/Tests.antt =====
-- Kinds of concrete commands.
use fastiron_tofu.Prelude.{has_byte, ◌≡◌, refl, codes, ◌++◌, ◌∷◌}
use fastiron_tofu.Config.Command.{
  vlan_header, stp_edge, unknown, multicast_config, storm_limit, spanning_tree,
}
use fastiron_tofu.Config.CommandKind.{command_kind}
use fastiron_tofu.Config.CommandKind.Keywords.{command_kind-keyword}

command_kind-keyword_example :
    (command_kind (codes "vlan") ≡ vlan_header)
    × (command_kind (codes "vlan" ++ b' ' ∷ codes "10 by port") ≡ vlan_header)
unfolding has_byte
command_kind-keyword_example =
    command_kind-keyword 32 b' ' (codes "vlan") (codes "10 by port") vlan_header refl refl refl

kind_of_prefix : command_kind (codes "vlanx 10") ≡ unknown
unfolding command_kind
kind_of_prefix = refl

kind_of_no_edge : command_kind (codes "no  spanning-tree\t802-1w admin-edge-port") ≡ stp_edge
unfolding command_kind
kind_of_no_edge = refl

kind_of_mode : command_kind (codes "spanning-tree 802-1w") ≡ spanning_tree
unfolding command_kind
kind_of_mode = refl

kind_of_multicast : command_kind (codes "multicast passive") ≡ multicast_config
unfolding command_kind
kind_of_multicast = refl

kind_of_limit : command_kind (codes "multicast limit 100") ≡ storm_limit
unfolding command_kind
kind_of_limit = refl
