-- ===== src/Config/Ve/Tests.antt =====
-- The virtual interface of a small document.
use fastiron_tofu.Prelude.{
  ◌≡◌, refl, true, false, [], ◌∷◌, Option, none, some, Bytes, codes, ok, ℕ, bytes_eq, loop,
}
use fastiron_tofu.Config.Command.{
  Kind, Command, Document, no_parse, empty_document, unknown, interface_stanza, port_name,
  admin_disable,
}
use fastiron_tofu.Config.Interface.{interface_header}
use fastiron_tofu.Config.Ve.{Ve, read_ve}
use fastiron_tofu.Config.Ve.Rows.{read_ve-StatesVe, StatesVe}

abbrev line : Option ℕ → Kind → Bytes → Bytes → Command
line parent kind name text = record {
  text = text;
  fields = [];
  parent = parent;
  indent = 0;
  parsed = record no_parse { kind = kind; valid = true; name = name };
}

abbrev sample : Document
sample = record empty_document {
  commands =
      line none interface_stanza (codes "ve 10") (codes "interface ve 10")
      ∷ line (some 0) port_name (codes "uplink") (codes " port-name uplink")
      ∷ line (some 0) admin_disable [] (codes " disable")
      ∷ line none unknown [] (codes "hostname a")
      ∷ [];
  complete = true;
}

abbrev sample_ve : Ve
sample_ve = record {
  exists = true;
  port_name = codes "uplink";
  enabled = false;
  has_children = true;
  remaining = codes " disable" ∷ codes "hostname a" ∷ [];
}

ve_of_sample : read_ve sample (codes "ve 10") ≡ ok sample_ve
unfolding read_ve interface_header loop bytes_eq
ve_of_sample = refl

read_ve-StatesVe_example : StatesVe sample (codes "ve 10") sample_ve
read_ve-StatesVe_example = read_ve-StatesVe sample (codes "ve 10") sample_ve ve_of_sample
