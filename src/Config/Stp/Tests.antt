-- ===== src/Config/Stp/Tests.antt =====
-- The spanning-tree policies of a small document.
use fastiron_tofu.Prelude.{
  ◌≡◌, refl, true, false, List, [], ◌∷◌, none, some, Bytes, Bool, codes, bytes_eq, ok, ℕ,
}
use fastiron_tofu.Config.Command.{
  Kind, Command, Document, no_parse, empty_document, vlan_header, spanning_tree, port_name,
}
use fastiron_tofu.Config.Sift.{sift}
use fastiron_tofu.Config.Stp.{StpVlan, stp_vlan, stp_vlans}
use fastiron_tofu.Config.Stp.All.{stp_vlans-StatesAll, StatesAll}
use fastiron_tofu.Config.Stp.Policy.{stp_vlan-StatesPolicy, StatesPolicy}

abbrev header : ℕ → Bytes → Command
header id text = record {
  text = text;
  fields = [];
  parent = none;
  indent = 0;
  parsed = record no_parse { kind = vlan_header; valid = true; number = id };
}

abbrev setting : ℕ → Kind → Bool → ℕ → Bytes → Command
setting parent kind options number text = record {
  text = text;
  fields = [];
  parent = some parent;
  indent = 1;
  parsed = record no_parse {
    kind = kind;
    valid = true;
    number = number;
    options = options;
    family = codes "802-1w";
  };
}

abbrev sample : Document
sample = record empty_document {
  commands =
      header 10 (codes "vlan 10")
      ∷ setting 0 port_name false 0 (codes " tagged ethe 1/1/1")
      ∷ setting 0 spanning_tree false 0 (codes " spanning-tree 802-1w")
      ∷ setting 0 spanning_tree true 4096 (codes " spanning-tree 802-1w priority 4096")
      ∷ header 20 (codes "vlan 20")
      ∷ [];
  complete = true;
}

abbrev sample_policy : StpVlan
sample_policy = record { vlan_id = 10; mode = codes "802-1w"; priority = 4096 }

abbrev sample_rest : List Bytes
sample_rest = codes "vlan 10" ∷ codes " tagged ethe 1/1/1" ∷ codes "vlan 20" ∷ []

stp_of_sample : stp_vlan sample 10 ≡ ok (some sample_policy, sample_rest)
unfolding stp_vlan sift bytes_eq
stp_of_sample = refl

no_stp_of_sample :
    stp_vlan sample 20
    ≡ ok (
      none,
      codes "vlan 10"
          ∷ codes " tagged ethe 1/1/1"
          ∷ codes " spanning-tree 802-1w"
          ∷ codes " spanning-tree 802-1w priority 4096"
          ∷ codes "vlan 20"
          ∷ [],
    )
unfolding stp_vlan sift bytes_eq
no_stp_of_sample = refl

stp_vlan-StatesPolicy_example : StatesPolicy sample 10 (some sample_policy) sample_rest
stp_vlan-StatesPolicy_example =
    stp_vlan-StatesPolicy sample 10 (some sample_policy) sample_rest stp_of_sample

stps_of_sample : stp_vlans sample ≡ ok (sample_policy ∷ [])
unfolding stp_vlans stp_vlan sift bytes_eq
stps_of_sample = refl

stp_vlans-StatesAll_example : StatesAll sample (sample_policy ∷ [])
stp_vlans-StatesAll_example = stp_vlans-StatesAll sample (sample_policy ∷ []) stps_of_sample
