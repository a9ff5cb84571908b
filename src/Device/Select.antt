-- ===== src/Device/Select.antt =====
-- internal/fastiron/device.go: the `select` of `lock` and of `Discover`, which waits for the slot of
-- a gate or for the end of its context. What others do meanwhile is a list of moments.
pub mod Waiting
use fastiron_tofu.Prelude.{
  true, Bool, not, ◌&&◌, ◌||◌, List, [], ◌∷◌, Option, none, some, if◌then◌else◌,
}
use fastiron_tofu.Device.Failure.{Failure}
use fastiron_tofu.Device.Connection.{DeviceState}

-- A moment at which the `select` looks: what others have done to the state before it, whether the
-- context has ended by then, and which arm is picked where both are ready.
pub record Moment (State : Type 0) : Type 0 where
  pub others : State → State
  pub ended : Bool
  pub prefers_gate : Bool

-- A `select` that no arm has freed yet, one that filled the gate, and one whose context ended.
pub data Selected (State : Type 0) : Type 0 where
  blocked : State → Selected State
  entered : State → Selected State
  given_up : State → Selected State

module _ {State : Type 0} (is_full : State → Bool) (take : State → State) where
  unfoldable pub select : List (Moment State) → State → Selected State
  select [] s = blocked s
  select (m ∷ more) s =
      let t = m.others s in
      let later = select more t in
      if not (is_full t) && (not m.ended || m.prefers_gate)
      then entered (take t)
      else if m.ended
      then given_up t
      else later

-- A context: its error, and the moments of the two waits in it.
pub record Context (World : Type 0) : Type 0 where
  pub failure : Failure
  pub for_lock : List (Moment (DeviceState World))
  pub for_discovery : List (Moment (DeviceState World))

-- A call that still waits, or has returned.
pub data Run (World : Type 0) : Type 0 where
  waiting : DeviceState World → Run World
  returned : Option Failure → DeviceState World → Run World

module _ {World : Type 0} where
  abbrev pub answer : Option Failure × DeviceState World → Run World
  answer (error, s) = returned error s

  -- What a call returned, if it has.
  abbrev pub result : Run World → Option (Option Failure)
  result (waiting s) = none
  result (returned error s) = some error

  abbrev pub is_locked : DeviceState World → Bool
  is_locked s = s.locked

  abbrev pub fill_lock : DeviceState World → DeviceState World
  fill_lock s = record s { locked = true }

  abbrev pub is_discovering : DeviceState World → Bool
  is_discovering s = s.discovering

  abbrev pub fill_discovery : DeviceState World → DeviceState World
  fill_discovery s = record s { discovering = true }

  -- `lock`
  unfoldable pub acquire : Context World → DeviceState World → Selected (DeviceState World)
  acquire ctx s = select is_locked fill_lock ctx.for_lock s

  -- The wait for `discoveryGate`.
  unfoldable pub acquire_discovery :
      Context World → DeviceState World → Selected (DeviceState World)
  acquire_discovery ctx s = select is_discovering fill_discovery ctx.for_discovery s
