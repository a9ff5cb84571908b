-- ===== src/Device/Update/Sticky.antt =====
-- A failed mutation is retained, and nothing is sent to the device after it.
use fastiron_tofu.Prelude.{Bool, true, false, ◌≡◌, ◌⊎◌, refl, Option, some, Bytes, arith, inl, inr}
use fastiron_tofu.Device.Failure.{Failure}
use fastiron_tofu.Device.Connection.{Environment, DeviceConfig, Method}
use fastiron_tofu.Device.Update.{Scope, Script, finish, mutate, observe, rest, run_script}

module _ {World : Type 0} (env : Environment World) (c : DeviceConfig) where
  -- A scope that has ended, or that holds a failure, sends nothing and stays as it is.
  abbrev pub IsClosed : Scope → Type 0
  IsClosed u = (u.active ≡ false) ⊎ ((e : Failure) × (u.error ≡ some e))

  rest-IsClosed :
      (u : Scope) (m : Method) (endpoint body : Bytes) (allow : Bool) (w : World)
      → IsClosed u
      → ((rest env c u m endpoint body allow w).1 ≡ u)
        × ((rest env c u m endpoint body allow w).2 ≡ w)
  unfolding rest
  rest-IsClosed u m endpoint body allow w (inl h) = ground arith
  rest-IsClosed u m endpoint body allow w (inr (e, h)) = ground arith

  -- rest in a callback
  pub run_script-IsClosed :
      (k : Script World) (u : Scope) (w : World)
      → IsClosed u
      → ((run_script env c k u w).1 ≡ u) × ((run_script env c k u w).2 ≡ w)
  unfolding run_script
  run_script-IsClosed (finish error) u w h = (refl, refl)
  run_script-IsClosed (mutate m endpoint body allow k) u w h =
      let (same, still) = rest-IsClosed u m endpoint body allow w h in
      rw (run_script, same, still)
        (run_script-IsClosed (k (rest env c u m endpoint body allow w).0) u w h)
  run_script-IsClosed (observe k) u w h = run_script-IsClosed (k w) u w h

  rest_retains :
      (m : Method) (endpoint body : Bytes) (allow : Bool) (u v : Scope) (w w' : World) (e : Failure)
      → u.active ≡ true
      → rest env c u m endpoint body allow w ≡ (some e, v, w')
      → v.error ≡ some e
  unfolding rest
  rest_retains m endpoint body allow u v w w' e active failed = ground arith

  -- Where a mutation of an active scope returns a failure, the scope retains that failure to the
  -- end of the callback, and the world at the end is the one that this request left, whatever the
  -- callback does after it.
  pub run_script_after_failure :
      (m : Method) (endpoint body : Bytes) (allow : Bool) (k : Option Failure → Script World)
      (u v : Scope) (w w' : World) (e : Failure)
      → u.active ≡ true
      → rest env c u m endpoint body allow w ≡ (some e, v, w')
      → ((run_script env c (mutate m endpoint body allow k) u w).1.error ≡ some e)
        × ((run_script env c (mutate m endpoint body allow k) u w).2 ≡ w')
  unfolding run_script
  run_script_after_failure m endpoint body allow k u v w w' e active failed =
      let held = rest_retains m endpoint body allow u v w w' e active failed in
      let (same, still) = run_script-IsClosed (k (some e)) v w' (inr (e, held)) in
      rw (run_script, failed) (same_error same held, still)
    where
      same_error : {x : Scope} → x ≡ v → v.error ≡ some e → x.error ≡ some e
      same_error p h = rw p h
