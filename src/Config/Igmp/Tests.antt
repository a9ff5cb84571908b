-- ===== src/Config/Igmp/Tests.antt =====
-- Multicast settings of small documents.
use fastiron_tofu.Prelude.{◌≡◌, refl, [], ◌∷◌, none, codes, ok, err, message}
use fastiron_tofu.Config.Command.{Command, Document, empty_document}
use fastiron_tofu.Config.Document.{make_command}
use fastiron_tofu.Config.Syntax.{parse_command}
use fastiron_tofu.Config.Igmp.{Igmp, igmp}
use fastiron_tofu.Config.Igmp.Defaults.{StatesIgmp, igmp-StatesIgmp}

abbrev global_active : Command
global_active = make_command parse_command (codes "ip multicast active") [] none 0

abbrev multicast : Document
multicast = record empty_document { commands = global_active ∷ [] }

abbrev active_settings : Igmp
active_settings = record { mode = codes "active"; version = 2; remaining = [] }

multicast_read : igmp multicast none ≡ ok active_settings
unfolding igmp make_command parse_command
multicast_read = refl

igmp-StatesIgmp_example : StatesIgmp none active_settings multicast.commands
igmp-StatesIgmp_example = igmp-StatesIgmp multicast none active_settings multicast_read

two_modes_refused :
    igmp (record multicast { commands = global_active ∷ global_active ∷ [] }) none
    ≡ err (message "native IGMP mode is ambiguous or unsupported")
unfolding igmp make_command parse_command
two_modes_refused = refl
