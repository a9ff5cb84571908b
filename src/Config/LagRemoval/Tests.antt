-- ===== src/Config/LagRemoval/Tests.antt =====
-- Aggregates that may be removed, and one that may not.
use fastiron_tofu.Prelude.{◌≡◌, refl, List, [], ◌∷◌, none, some, Bytes, codes, ok}
use fastiron_tofu.Config.Command.{Command, Document, empty_document}
use fastiron_tofu.Config.Document.{make_command}
use fastiron_tofu.Config.Syntax.{parse_command}
use fastiron_tofu.Config.LagRemoval.{check_lag_removal}
use fastiron_tofu.Config.LagRemoval.Erased.{IsRemovable, check_lag_removal-IsRemovable}

abbrev core_lag : Command
core_lag = make_command parse_command (codes "lag core dynamic id 7") [] none 0

abbrev core_ports : Command
core_ports = make_command parse_command (codes "ports ethe 1/1/1 to 1/1/2") [] (some 0) 1

abbrev disabled_port : Command
disabled_port = make_command parse_command (codes "disable ethe 1/1/2") [] (some 0) 1

abbrev named_port : Command
named_port = make_command parse_command (codes "port-name uplink ethernet 1/1/1") [] (some 0) 1

abbrev core_document : Document
core_document = record empty_document {
  commands = core_lag ∷ core_ports ∷ disabled_port ∷ named_port ∷ [];
}

abbrev core_members : List Bytes
core_members = codes "ethernet 1/1/1" ∷ codes "ethernet 1/1/2" ∷ []

core_removable : check_lag_removal core_document 7 core_members ≡ ok tt
unfolding check_lag_removal make_command parse_command
core_removable = refl

check_lag_removal-IsRemovable_example : IsRemovable core_document 7 core_members
check_lag_removal-IsRemovable_example =
    check_lag_removal-IsRemovable core_document 7 core_members core_removable
