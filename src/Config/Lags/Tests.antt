-- ===== src/Config/Lags/Tests.antt =====
-- Aggregates of small documents.
use fastiron_tofu.Prelude.{
  ◌≡◌, ◌≤◌, refl, List, [], ◌∷◌, none, some, Bytes, codes, ok, err, message,
}
use fastiron_tofu.Config.Command.{Command, Document, empty_document}
use fastiron_tofu.Config.Document.{make_command}
use fastiron_tofu.Config.Syntax.{parse_command}
use fastiron_tofu.Config.Lags.{Lag, lags}
use fastiron_tofu.Config.Lags.Members.{memberships, lags-memberships}

abbrev core_lag : Command
core_lag = make_command parse_command (codes "lag core dynamic id 7") [] none 0

abbrev edge_lag : Command
edge_lag = make_command parse_command (codes "lag edge static id 3") [] none 0

abbrev port_1_and_2 : Command
port_1_and_2 = make_command parse_command (codes "ports ethe 1/1/1 to 1/1/2") [] (some 0) 1

abbrev port_2 : Command
port_2 = make_command parse_command (codes "ports ethe 1/1/2") [] (some 2) 1

abbrev both_names : List Bytes
both_names = codes "ethernet 1/1/2" ∷ codes "ethernet 1/1/1" ∷ []

abbrev two_lags : Document
two_lags = record empty_document { commands = core_lag ∷ port_1_and_2 ∷ edge_lag ∷ [] }

abbrev found_lags : List Lag
found_lags =
    record { id = 3; name = codes "edge"; mode = codes "static"; members = [] }
    ∷ record {
      id = 7;
      name = codes "core";
      mode = codes "dynamic";
      members = codes "ethernet 1/1/1" ∷ codes "ethernet 1/1/2" ∷ [];
    }
    ∷ []

two_lags_read : lags two_lags both_names ≡ ok found_lags
unfolding lags make_command parse_command
two_lags_read = refl

lags-memberships_example : memberships (codes "ethernet 1/1/2") found_lags ≤ 1
lags-memberships_example =
    lags-memberships (codes "ethernet 1/1/2") two_lags both_names found_lags two_lags_read

shared_member_refused :
    lags
      (record two_lags { commands = core_lag ∷ port_1_and_2 ∷ edge_lag ∷ port_2 ∷ [] })
      both_names
    ≡ err (message "native LAG member is assigned more than once")
unfolding lags make_command parse_command
shared_member_refused = refl
