-- ===== src/Config/Interface/Tests.antt =====
-- The storm policy of a small document.
use fastiron_tofu.Prelude.{
  ◌≡◌, refl, true, false, [], ◌∷◌, none, some, Bytes, codes, ok, ℕ, bytes_eq,
}
use fastiron_tofu.Config.Command.{
  Command, Document, no_parse, empty_document, interface_stanza, storm_limit,
}
use fastiron_tofu.Config.Sift.{sift}
use fastiron_tofu.Config.Interface.{InterfacePolicy, storm, interface_policy, interface_header}
use fastiron_tofu.Config.Interface.Storm.{interface_policy-StatesStorm, StatesStorm}

abbrev limit : ℕ → Bytes → Bytes → Bytes → Command
limit rate name unit text = record {
  text = text;
  fields = [];
  parent = some 0;
  indent = 1;
  parsed = record no_parse {
    kind = storm_limit;
    valid = true;
    number = rate;
    name = name;
    unit = unit;
  };
}

abbrev sample : Document
sample = record empty_document {
  commands =
      record {
        text = codes "interface ethernet 1/1/1";
        fields = [];
        parent = none;
        indent = 0;
        parsed = record no_parse {
          kind = interface_stanza;
          valid = true;
          name = codes "ethernet 1/1/1";
        };
      }
      ∷ limit 100 (codes "broadcast") [] (codes " broadcast limit 100")
      ∷ limit 50 (codes "multicast") (codes "pps") (codes " multicast limit 50 pps")
      ∷ record {
        text = codes "hostname a";
        fields = [];
        parent = none;
        indent = 0;
        parsed = no_parse;
      }
      ∷ [];
  complete = true;
}

abbrev sample_policy : InterfacePolicy
sample_policy = record {
  enabled = false;
  vlan = 0;
  unit = codes "pps";
  limits = (codes "multicast", 50) ∷ (codes "broadcast", 100) ∷ [];
  options = false;
}

storm_of_sample :
    interface_policy sample (codes "ethernet 1/1/1") storm
    ≡ ok (sample_policy, codes "hostname a" ∷ [])
unfolding interface_policy interface_header sift bytes_eq
storm_of_sample = refl

interface_policy-StatesStorm_example :
    StatesStorm sample (codes "ethernet 1/1/1") sample_policy (codes "hostname a" ∷ [])
interface_policy-StatesStorm_example =
    interface_policy-StatesStorm sample (codes "ethernet 1/1/1") sample_policy
      (codes "hostname a" ∷ []) storm_of_sample
