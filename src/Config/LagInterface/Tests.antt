-- ===== src/Config/LagInterface/Tests.antt =====
-- The virtual interface of an aggregate in a small document.
use fastiron_tofu.Prelude.{
  ◌≡◌, refl, true, false, [], ◌∷◌, Option, none, some, Bytes, codes, ok, ℕ, bytes_eq, loop,
}
use fastiron_tofu.Config.Command.{
  Kind, Command, Document, no_parse, empty_document, lag_header, interface_stanza, port_name,
  admin_disable,
}
use fastiron_tofu.Config.Select.{for_selected}
use fastiron_tofu.Config.Globals.{has_lag}
use fastiron_tofu.Config.Interface.{interface_header}
use fastiron_tofu.Config.LagInterface.{LagInterface, lag_interface}
use fastiron_tofu.Config.LagInterface.Settings.{lag_interface-HasLagInterface, HasLagInterface}

abbrev line : Option ℕ → Kind → Bytes → Command
line parent kind name = record {
  text = name;
  fields = [];
  parent = parent;
  indent = 0;
  parsed = record no_parse { kind = kind; valid = true; name = name; number = 3 };
}

abbrev sample : Document
sample = record empty_document {
  commands =
      line none lag_header (codes "core")
      ∷ line none interface_stanza (codes "lag 3")
      ∷ line (some 1) port_name (codes "to core")
      ∷ line (some 1) admin_disable []
      ∷ [];
  complete = true;
}

abbrev sample_lag : LagInterface
sample_lag = record { port_name = codes "to core"; enabled = false }

lag_of_sample : lag_interface sample 3 (codes "lag 3") ≡ ok sample_lag
unfolding lag_interface has_lag for_selected interface_header loop bytes_eq
lag_of_sample = refl

lag_interface-HasLagInterface_example : HasLagInterface sample 3 (codes "lag 3") sample_lag
lag_interface-HasLagInterface_example =
    lag_interface-HasLagInterface sample 3 (codes "lag 3") sample_lag lag_of_sample
