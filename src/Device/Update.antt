-- ===== src/Device/Update.antt =====
-- internal/fastiron/update.go: `Update`, its scope, and `Device.Update`, with `Save` of device.go. A reconciliation callback is a tree of the calls that it makes.
pub mod Sticky
pub mod Outcome
pub mod Returned
use fastiron_tofu.Prelude.{
  ℕ, Bool, true, false, not, ◌&&◌, ◌||◌, List, [], ◌∷◌, Option, none, some, Bytes, codes, bytes_eq,
  is_none, if◌then◌else◌,
}
use fastiron_tofu.Config.Command.{ParsedCommand}
use fastiron_tofu.Device.Failure.{is, Failure, plain, is_opt, join, rest_not_found}
use fastiron_tofu.Device.Connection.{
  Capabilities, Environment, DeviceConfig, DeviceState, Method, patch, put, post, delete, do_rest,
}
use fastiron_tofu.Device.Select.{
  select, Context, Run, waiting, returned, Selected, blocked, entered, given_up, answer, acquire,
}
use fastiron_tofu.Device.Save.{discover, write_config, saver}

-- `Update`: whether the callback still runs, and the first failure that it met.
pub record Scope : Type 0 where
  pub active : Bool
  pub error : Option Failure

-- A callback: it ends with an error or none, sends a mutation and goes on by its result, or
-- looks at the device.
pub data Script (World : Type 0) : Type 0 where
  finish : Option Failure → Script World
  mutate : Method → Bytes → Bytes → Bool → (Option Failure → Script World) → Script World
  observe : (World → Script World) → Script World

abbrev pub is_mutation : Method → Bool
is_mutation patch = true
is_mutation put = true
is_mutation post = true
is_mutation delete = true
is_mutation _ = false

module _ {World : Type 0} (env : Environment World) (c : DeviceConfig) where
  abbrev settle : Bool → Option Failure × World → Option Failure × World
  settle allow_missing (error, w) =
      (if allow_missing && is_opt error rest_not_found then none else error, w)

  abbrev keep_error : Scope → Option Failure × World → Option Failure × Scope × World
  keep_error u (error, w) = (error, record u { error = error }, w)

  -- `rest`: the error that is returned, and what is retained of it.
  unfoldable pub rest :
      Scope → Method → Bytes → Bytes → Bool → World → Option Failure × Scope × World
  rest u method endpoint body allow_missing w =
      if not u.active
      then (some (plain 12 "configuration update is no longer active"), u, w)
      else if not (is_none u.error)
      then (u.error, u, w)
      else if not (is_mutation method)
      then keep_error u
          (some (plain 13 "configuration mutation requires PATCH, PUT, POST, or DELETE"), w)
      else keep_error u (settle allow_missing (do_rest env c method endpoint body w))

  -- The callback in its scope.
  unfoldable pub run_script : Script World → Scope → World → Option Failure × Scope × World
  run_script (finish error) u w = (error, u, w)
  run_script (mutate method endpoint body allow_missing k) u w =
      let (error, u', w') = rest u method endpoint body allow_missing w in
      run_script (k error) u' w'
  run_script (observe k) u w = run_script (k w) u w

abbrev pub open_scope : Scope
open_scope = record { active = true; error = none }

-- `if update.err != nil && !errors.Is(err, update.err) { err = errors.Join(update.err, err) }`
unfoldable pub retain : Option Failure → Option Failure → Option Failure
retain none error = error
retain (some e) error = if not (is_opt error e) then some (join e error) else error

module _ {World : Type 0} where
  abbrev pub release : DeviceState World → DeviceState World
  release s = record s { locked = false }

module _ (parse_command : Bytes → ParsedCommand) (parse_version : Bytes → Option Capabilities)
    {World : Type 0} (env : Environment World) (c : DeviceConfig) where
  abbrev saved : DeviceState World → Option Failure × World → Option Failure × DeviceState World
  saved s (error, w) = (error, record s { world = w })

  -- Behind the callback: a failure is reported, and success is saved if each write is.
  pub conclude :
      DeviceState World → Option Failure × Scope × World → Option Failure × DeviceState World
  conclude s (error, u, w) = elim (retain u.error error) [
    | some e ↦ (some e, record s { world = w })
    | none ↦
        if bytes_eq c.persistence (codes "after_each_write")
        then saved s (write_config parse_command env c w)
        else (none, record s { world = w })
  ]

  abbrev pub discovered : Script World → Run World → Run World
  discovered reconcile (waiting s) = waiting s
  discovered reconcile (returned (some e) s) = returned (some e) s
  discovered reconcile (returned none s) =
      answer (conclude s (run_script env c reconcile open_scope s.world))

  -- The deferred `unlock`.
  abbrev pub releasing : Run World → Run World
  releasing (waiting s) = waiting s
  releasing (returned error s) = returned error (release s)

  abbrev pub with_lock :
      Context World → (DeviceState World → Run World) → Selected (DeviceState World) → Run World
  with_lock ctx body (blocked s) = waiting s
  with_lock ctx body (given_up s) = returned (some ctx.failure) s
  with_lock ctx body (entered s) = releasing (body s)

  -- `Device.Update`
  unfoldable pub update : Context World → Script World → DeviceState World → Run World
  update ctx reconcile s =
      with_lock ctx (λ t. discovered reconcile (discover parse_version env ctx c t)) (acquire ctx s)

  abbrev pub saving : Run World → Run World
  saving (waiting s) = waiting s
  saving (returned (some e) s) = returned (some e) s
  saving (returned none s) = answer (saved s (write_config parse_command env c s.world))

  -- `Device.Save`
  unfoldable pub save : Context World → DeviceState World → Run World
  save ctx s =
      if bytes_eq c.persistence (codes "never")
      then returned (some (plain 14 "configuration saves are disabled by persistence_mode = never"))
          s
      else with_lock ctx (λ t. saving (discover parse_version env ctx c t)) (acquire ctx s)

-- Opens an update for tests.
unfoldable pub updater : Unit {0}
unfolding update save acquire select discover conclude run_script rest do_rest retain saver is
updater = tt
