-- ===== src/Device/Update/Returned.antt =====
-- That an update and a save return, and that they give their lock back.
use fastiron_tofu.Prelude.{
  ◌≡◌, refl, ◌∙◌, ap, ◌⊎◌, true, false, Option, some, Bytes, codes, bytes_eq, arith, inl, inr,
  Bool-cases,
}
use fastiron_tofu.Config.Command.{ParsedCommand}
use fastiron_tofu.Device.Failure.{Failure}
use fastiron_tofu.Device.Connection.{Capabilities, Environment, DeviceConfig, DeviceState}
use fastiron_tofu.Device.Select.{
  Context, Run, waiting, returned, Selected, blocked, entered, given_up, is_locked, fill_lock,
  is_discovering, fill_discovery, acquire,
}
use fastiron_tofu.Device.Select.Waiting.{Takes, GivesUp, IsReady, select-Takes, select-GivesUp}
use fastiron_tofu.Device.Save.{discover}
use fastiron_tofu.Device.Update.{Script, releasing, discovered, saving, with_lock, update, save}

module _ {World : Type 0} where
  -- What a call that returned leaves: it had the lock and gave it back, or its wait ended with
  -- the context's error in the state that the others left.
  abbrev pub Leaves :
      Context World → DeviceState World → Option Failure → DeviceState World → Type 0
  Leaves ctx s error t =
      (((u : DeviceState World) × Takes is_locked fill_lock ctx.for_lock s u) × (t.locked ≡ false))
      ⊎ ((error ≡ some ctx.failure) × GivesUp is_locked fill_lock ctx.for_lock s t)

  abbrev pub Returns : Run World → Type 0
  Returns r = (error : Option Failure) × ((t : DeviceState World) × (r ≡ returned error t))

  -- The lock, and then discoveryGate, is free or the context has ended at some moment of the wait.
  abbrev pub IsUnhindered : Context World → DeviceState World → Type 0
  IsUnhindered ctx s =
      IsReady is_locked fill_lock ctx.for_lock s
      × ((t : DeviceState World)
          → Takes is_locked fill_lock ctx.for_lock s t
          → IsReady is_discovering fill_discovery ctx.for_discovery t)

module _ (parse_command : Bytes → ParsedCommand) (parse_version : Bytes → Option Capabilities)
    {World : Type 0} (env : Environment World) (c : DeviceConfig) where
  releasing-returned :
      (r : Run World) (error : Option Failure) (t : DeviceState World)
      → releasing parse_command parse_version env c r ≡ returned error t
      → t.locked ≡ false
  releasing-returned (waiting s) error t h = absurd (ground arith)
  releasing-returned (returned e s) error t h = ground arith

  with_lock-Leaves :
      (ctx : Context World) (body : DeviceState World → Run World) (s t : DeviceState World)
      (error : Option Failure) (got : Selected (DeviceState World))
      → acquire ctx s ≡ got
      → with_lock parse_command parse_version env c ctx body got ≡ returned error t
      → Leaves ctx s error t
  unfolding acquire
  with_lock-Leaves ctx body s t error (blocked u) taken h = absurd (ground arith)
  with_lock-Leaves ctx body s t error (entered u) taken h = inl (
    (u, select-Takes is_locked fill_lock ctx.for_lock s u taken),
    releasing-returned (body u) error t h,
  )
  with_lock-Leaves ctx body s t error (given_up u) taken h =
      let same : u ≡ t = ground arith in
      inr (
        ground arith,
        select-GivesUp is_locked fill_lock ctx.for_lock s t (taken ∙ ap given_up same),
      )

  -- An update that returned, and a save that did unless saves are disabled, had its lock and left
  -- it free, or returned its context's error without it; where saves are disabled, a save leaves
  -- the state as it was.
  pub update-Leaves :
      (ctx : Context World) (reconcile : Script World) (s t u : DeviceState World)
      (error failure : Option Failure)
      → update parse_command parse_version env c ctx reconcile s ≡ returned error t
      → save parse_command parse_version env c ctx s ≡ returned failure u
      → Leaves ctx s error t
        × (((bytes_eq c.persistence (codes "never") ≡ true) × (s ≡ u)) ⊎ Leaves ctx s failure u)
  unfolding update save
  update-Leaves ctx reconcile s t u error failure updated saved = (
    with_lock-Leaves ctx
        (λ t.
          discovered parse_command parse_version env c reconcile
            (discover parse_version env ctx c t))
        s t error (acquire ctx s) refl updated,
    elim (Bool-cases (bytes_eq c.persistence (codes "never"))) [
      | inl never ↦ inl (never, same_state (rw never at saved))
      | inr some_mode ↦ inr (
          with_lock-Leaves ctx
            (λ t. saving parse_command parse_version env c (discover parse_version env ctx c t)) s u
            failure (acquire ctx s) refl (rw some_mode at saved))
    ],
  )
    where
      same_state : {e : Option Failure} → returned e s ≡ returned failure u → s ≡ u
      same_state h = ground arith
