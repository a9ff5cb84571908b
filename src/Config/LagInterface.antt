-- ===== src/Config/LagInterface.antt =====
-- internal/config/lag_interface.go: `LAGInterface`, the virtual interface of an aggregate.
pub mod Settings
mod Tests
use fastiron_tofu.Prelude.{
  ℕ, Bool, true, false, not, ◌&&◌, ◌||◌, Bytes, [], Result, ok, ◌>>=◌, ◌>>◌, reject_if, ◌==◌,
  if◌then◌else◌,
}
use fastiron_tofu.Config.Command.{Command, Document, port_name, admin_disable}
use fastiron_tofu.Config.Select.{for_selected}
use fastiron_tofu.Config.Globals.{has_lag}
use fastiron_tofu.Config.Interface.{interface_header, is_child}
use fastiron_tofu.Config.Ve.{has_ranges}

pub record LagInterface : Type 0 where
  pub port_name : Bytes
  pub enabled : Bool

-- The answer, and `named`.
pub record LagState : Type 0 where
  pub lag : LagInterface
  pub named : Bool

abbrev pub lag_start : LagState
lag_start = record { lag = record { port_name = []; enabled = true }; named = false }

pub lag_name : Command → LagState → Result LagState
lag_name c s =
    reject_if (s.named || not c.valid) "native LAG interface name is malformed or repeated"
    >> ok (record s { lag = record s.lag { port_name = c.name }; named = true })

pub lag_disable : Command → LagState → Result LagState
lag_disable c s =
    reject_if (not s.lag.enabled || not c.valid || has_ranges c.port_ranges)
      "native LAG interface administrative setting is malformed or repeated"
    >> ok (record s { lag = record s.lag { enabled = false } })

pub lag_body : Command → LagState → Result LagState
unfolding lag_name lag_disable
lag_body c s =
    if c.kind == port_name
    then lag_name c s
    else if c.kind == admin_disable
    then lag_disable c s
    else ok s

-- `LAGInterface`, for the name `lag <id>` of the interface.
unfoldable pub lag_interface : Document → ℕ → Bytes → Result LagInterface
unfolding lag_body for_selected
lag_interface d id name = do
  exists ← has_lag d id
  reject_if (not exists) "native LAG does not exist"
  header ← interface_header d name
  s ← for_selected (is_child header) lag_body d.commands lag_start
  ok s.lag
