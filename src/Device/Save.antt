-- ===== src/Device/Save.antt =====
-- internal/fastiron/device.go: `Discover`, `save`, `Save` and `normalizeConfiguration`. The
-- regular expressions of `parseVersion` are a parameter, and so is `parseCommand`.
pub mod Verified
use fastiron_tofu.Prelude.{
  ℕ, Bool, true, false, not, ◌&&◌, ◌||◌, List, [], ◌∷◌, Option, none, some, Bytes, codes, String,
  Result, ok, err, bytes_eq, has_prefix, is_none, get_or, if◌then◌else◌,
}
use fastiron_tofu.Config.Command.{ParsedCommand}
use fastiron_tofu.Config.Document.{parse, to_string, reader}
use fastiron_tofu.Device.Failure.{Failure, plain, native}
use fastiron_tofu.Device.Select.{
  Context, Run, waiting, returned, blocked, entered, given_up, select, acquire_discovery,
}
use fastiron_tofu.Device.Connection.{Capabilities, Environment, DeviceConfig, DeviceState}

-- `strings.Contains`
pub contains : Bytes → Bytes → Bool
contains [] part = has_prefix part []
contains (c ∷ cs) part = has_prefix part (c ∷ cs) || contains cs part

pub save_confirmed : Bytes → Bool
unfolding contains has_prefix
save_confirmed output =
    contains output (codes "Write startup-config done.")
    || contains output (codes "write memory completed. No new config is added.")

abbrev pub show_both : List Bytes
show_both = codes "show running-config" ∷ codes "show configuration" ∷ []

abbrev pub write_memory : List Bytes
write_memory = codes "write memory" ∷ []

module _ (parse_command : Bytes → ParsedCommand) where
  -- `normalizeConfiguration`
  pub normalize : Bytes → Result Bytes
  normalize output = elim (parse parse_command output) [ ok d ↦ ok (to_string d) | err e ↦ err e ]

  abbrev pub compare_texts : Result Bytes → Result Bytes → Option Failure
  compare_texts (err e) startup = some (native e)
  compare_texts (ok running) (err e) = some (native e)
  compare_texts (ok running) (ok startup) =
      if not (bytes_eq running startup)
      then some (plain 9 "startup configuration does not match running configuration after save")
      else none

  -- The independent check of what was saved, on the two configurations shown.
  pub verify_saved : List Bytes → Option Failure
  unfolding normalize
  verify_saved outputs =
      compare_texts (normalize (get_or outputs 0 [])) (normalize (get_or outputs 1 []))

  module _ {World : Type 0} (env : Environment World) where
    abbrev shown : (Option Failure × List Bytes) × World → Option Failure × World
    shown ((some e, outputs), w) = (some e, w)
    shown ((none, outputs), w) = (verify_saved outputs, w)

    abbrev written : (Option Failure × List Bytes) × World → Option Failure × World
    written ((some e, outputs), w) = (some e, w)
    written ((none, outputs), w) =
        if not (save_confirmed (get_or outputs 0 []))
        then (some (plain 8 "FastIron did not confirm startup configuration was saved"), w)
        else shown (env.run_cli show_both w)

    -- `save`
    unfoldable pub write_config : DeviceConfig → World → Option Failure × World
    write_config c w =
        if not c.has_cli
        then (some (plain 7 "SSH is required for configuration persistence"), w)
        else written (env.run_cli write_memory w)

module _ (parse_version : Bytes → Option Capabilities) {World : Type 0}
    (env : Environment World) where
  abbrev found :
      DeviceState World → (Option Failure × List Bytes) × World → Option Failure × DeviceState World
  found s ((some e, outputs), w) = (some e, record s { world = w })
  found s ((none, outputs), w) = elim (parse_version (get_or outputs 0 [])) [
    | none ↦ (
      some (plain 11 "cannot identify active FastIron firmware from show version"),
      record s { world = w },
    )
    | some c ↦ (none, record s { world = w; capabilities = some c })
  ]

  -- `Discover` behind its gate.
  unfoldable pub probe : DeviceConfig → DeviceState World → Option Failure × DeviceState World
  probe c s =
      if not (is_none s.capabilities)
      then (none, s)
      else if not c.has_cli
      then (
        some (
            plain 10
              "SSH is required to verify active firmware; RESTCONF firmware discovery is not yet verified"),
        s,
      )
      else found s (env.run_cli (codes "show version" ∷ []) s.world)

  -- The deferred `<-d.discoveryGate`.
  abbrev open_discovery : Option Failure × DeviceState World → Run World
  open_discovery (error, s) = returned error (record s { discovering = false })

  -- `Discover`
  unfoldable pub discover : Context World → DeviceConfig → DeviceState World → Run World
  unfolding acquire_discovery
  discover ctx c s = elim (acquire_discovery ctx s) [
    | blocked t ↦ waiting t
    | given_up t ↦ returned (some ctx.failure) t
    | entered t ↦ open_discovery (probe c t)
  ]

-- Opens the saving of a configuration for tests.
unfoldable pub saver : Unit {0}
unfolding write_config discover acquire_discovery probe select verify_saved normalize save_confirmed
    contains reader bytes_eq has_prefix
saver = tt
