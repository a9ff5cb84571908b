-- ===== src/Device/Connection.antt =====
-- internal/fastiron/device.go: a device's configuration and connections. The transports and the
-- switch behind them are parameters: what a request answers, and the world that it leaves.
use fastiron_tofu.Prelude.{
  Bool, not, ◌&&◌, List, Option, none, some, Bytes, codes, bytes_eq, if◌then◌else◌,
}
use fastiron_tofu.Device.Failure.{Failure, plain}

pub data Method : Type 0 where
  get patch put post delete other : Method

pub record Capabilities : Type 0 where
  pub firmware : Bytes
  pub boot_image : Bytes

-- The switch and the network: an SSH session runs commands, a RESTCONF request may fail.
pub record Environment (World : Type 0) : Type 0 where
  pub run_cli : List Bytes → World → (Option Failure × List Bytes) × World
  pub request : Method → Bytes → Bytes → World → Option Failure × World

pub record DeviceConfig : Type 0 where
  pub allow_aaa_changes : Bool
  pub host : Bytes
  pub transport : Bytes
  pub persistence : Bytes
  pub has_rest : Bool
  pub has_cli : Bool

-- What a device holds between operations: whether the lock of its host and its discoveryGate are
-- taken, and the firmware that it has seen.
pub record DeviceState (World : Type 0) : Type 0 where
  pub locked : Bool
  pub discovering : Bool
  pub capabilities : Option Capabilities
  pub world : World

-- The checks of `New`, once both clients are built; `none` is success.
unfoldable pub check_config : DeviceConfig → Option Failure
unfolding bytes_eq
check_config c =
    if not (bytes_eq c.transport (codes "auto"))
      && not (bytes_eq c.transport (codes "restconf"))
      && not (bytes_eq c.transport (codes "ssh"))
    then some (plain 1 "transport must be auto, restconf, or ssh")
    else if not (bytes_eq c.persistence (codes "after_each_write"))
        && not (bytes_eq c.persistence (codes "manual"))
        && not (bytes_eq c.persistence (codes "never"))
    then some (plain 2 "persistence_mode must be after_each_write, manual, or never")
    else if bytes_eq c.transport (codes "restconf") && not c.has_rest
    then some (plain 3 "RESTCONF transport is disabled")
    else if bytes_eq c.transport (codes "ssh") && not c.has_cli
    then some (plain 4 "SSH transport is disabled")
    else if not c.has_rest && not c.has_cli
    then some (plain 5 "at least one transport must be enabled")
    else none

-- `RESTCONFEnabled`
unfoldable pub restconf_enabled : DeviceConfig → Bool
unfolding bytes_eq
restconf_enabled c = not (bytes_eq c.transport (codes "ssh")) && c.has_rest

module _ {World : Type 0} (env : Environment World) where
  -- `doREST`
  unfoldable pub do_rest : DeviceConfig → Method → Bytes → Bytes → World → Option Failure × World
  unfolding restconf_enabled
  do_rest c method endpoint body w =
      if not (restconf_enabled c)
      then (some (plain 6 "RESTCONF transport is unavailable"), w)
      else env.request method endpoint body w
