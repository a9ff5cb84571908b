-- ===== src/Device/Update/Outcome.antt =====
-- When an update succeeds, and what it reports and saves.
use fastiron_tofu.Prelude.{
  sym, ◌⊎◌, ap, ◌∙◌, true, ◌≡◌, ◌↔◌, refl, Option, none, some, Bytes, codes, bytes_eq, arith,
  Bool-cases, inl, inr,
}
use fastiron_tofu.Config.Command.{ParsedCommand}
use fastiron_tofu.Device.Failure.{Failure, is, join}
use fastiron_tofu.Device.Connection.{Capabilities, Environment, DeviceConfig, DeviceState}
use fastiron_tofu.Device.Select.{
  Context, Run, waiting, returned, Selected, blocked, entered, given_up, answer, result, is_locked,
  fill_lock, acquire,
}
use fastiron_tofu.Device.Select.Waiting.{Takes, select-Takes, Takes-select}
use fastiron_tofu.Device.Save.{discover, write_config}
use fastiron_tofu.Device.Update.{
  Scope, Script, run_script, retain, release, releasing, conclude, open_scope, discovered, update,
}

retain-none :
    (held error : Option Failure) → (retain held error ≡ none) ↔ ((held ≡ none) × (error ≡ none))
unfolding retain
retain-none none none = ground arith
retain-none none (some e) = ground arith
retain-none (some h) none = ground arith
retain-none (some h) (some e) = ground arith

pub Selected-cases :
    {State : Type 0} (x : Selected State)
    → ((t : State) × (x ≡ entered t))
      ⊎ (((t : State) × (x ≡ given_up t)) ⊎ ((t : State) × (x ≡ blocked t)))
Selected-cases (entered t) = inl (t, refl)
Selected-cases (given_up t) = inr (inl (t, refl))
Selected-cases (blocked t) = inr (inr (t, refl))

module _ (parse_command : Bytes → ParsedCommand) (parse_version : Bytes → Option Capabilities)
    {World : Type 0} (env : Environment World) (c : DeviceConfig) where
  -- The save that each write asks for, and that succeeds.
  abbrev pub IsSaved : World → Type 0
  IsSaved w =
      bytes_eq c.persistence (codes "after_each_write") ≡ true
      → (write_config parse_command env c w).0 ≡ none

  -- The callback returns no error, every mutation went through, and the result is saved.
  pub record Ran (reconcile : Script World) (t : DeviceState World) : Type 0 where
    pub returned : (run_script env c reconcile open_scope t.world).0 ≡ none
    pub applied : (run_script env c reconcile open_scope t.world).1.error ≡ none
    pub saved : IsSaved (run_script env c reconcile open_scope t.world).2

  conclude-none :
      (s : DeviceState World) (r : Option Failure × Scope × World)
      → ((conclude parse_command parse_version env c s r).0 ≡ none)
        ↔ ((r.0 ≡ none) × (r.1.error ≡ none) × IsSaved r.2)
  unfolding conclude
  conclude-none s r = ground (arith, retain-none r.1.error r.0)

  -- What success means: the lock is taken, the firmware is discovered, and the callback runs
  -- without a failure in that state.
  pub record Succeeds (ctx : Context World) (reconcile : Script World) (s : DeviceState World)
      : Type 0 where
    pub inside : DeviceState World
    pub locked : Takes is_locked fill_lock ctx.for_lock s inside
    pub known : DeviceState World
    pub found : discover parse_version env ctx c inside ≡ returned none known
    pub ran : Ran reconcile known

  result-answer :
      (e : Option Failure) (r : Option Failure × DeviceState World)
      → (result (answer r) ≡ some e) ↔ (r.0 ≡ e)
  result-answer e (x, s) = ground arith

  result-releasing :
      (e : Option Failure) (r : Run World)
      → (result (releasing parse_command parse_version env c r) ≡ some e) ↔ (result r ≡ some e)
  result-releasing e (waiting s) = ground arith
  result-releasing e (returned x s) = ground arith

  discovered-none :
      (reconcile : Script World) (r : Run World)
      → result (discovered parse_command parse_version env c reconcile r) ≡ some none
      → (t : DeviceState World) × ((r ≡ returned none t) × Ran reconcile t)
  discovered-none reconcile (waiting t) h = absurd (ground arith)
  discovered-none reconcile (returned (some e) t) h = absurd (ground arith)
  discovered-none reconcile (returned none t) h =
      let held = conclude-none t (run_script env c reconcile open_scope t.world) in
      let (a, b, d) = held.0 (
        (result-answer none (
            conclude parse_command parse_version env c t
              (run_script env c reconcile open_scope t.world))).0
          h) in
      (t, (refl, record { returned = a; applied = b; saved = d }))

  discovered-Ran :
      (reconcile : Script World) (t : DeviceState World)
      → Ran reconcile t
      → result (discovered parse_command parse_version env c reconcile (returned none t))
        ≡ some none
  discovered-Ran reconcile t ran =
      (result-answer none (
          conclude parse_command parse_version env c t
            (run_script env c reconcile open_scope t.world))).1
        ((conclude-none t (run_script env c reconcile open_scope t.world)).1
          (ran.returned, ran.applied, ran.saved))

  update-entered :
      (ctx : Context World) (reconcile : Script World) (s t : DeviceState World)
      → Takes is_locked fill_lock ctx.for_lock s t
      → update parse_command parse_version env c ctx reconcile s
        ≡ releasing parse_command parse_version env c (
            discovered parse_command parse_version env c reconcile
              (discover parse_version env ctx c t))
  unfolding update acquire
  update-entered ctx reconcile s t h = rw (Takes-select is_locked fill_lock ctx.for_lock s t h) refl

  acquire-Takes :
      (ctx : Context World) (s t : DeviceState World)
      → acquire ctx s ≡ entered t
      → Takes is_locked fill_lock ctx.for_lock s t
  unfolding acquire
  acquire-Takes ctx s t h = select-Takes is_locked fill_lock ctx.for_lock s t h

  update-given_up :
      (ctx : Context World) (reconcile : Script World) (s t : DeviceState World)
      → acquire ctx s ≡ given_up t
      → update parse_command parse_version env c ctx reconcile s ≡ returned (some ctx.failure) t
  unfolding update
  update-given_up ctx reconcile s t e = rw e refl

  update-blocked :
      (ctx : Context World) (reconcile : Script World) (s t : DeviceState World)
      → acquire ctx s ≡ blocked t
      → update parse_command parse_version env c ctx reconcile s ≡ waiting t
  unfolding update
  update-blocked ctx reconcile s t e = rw e refl

  -- An update returns no error exactly if its wait ends with the lock, the firmware is discovered,
  -- the callback returns no error and leaves no retained failure, and, where persistence is
  -- after_each_write, the save of the resulting world succeeds.
  pub update_iff :
      (ctx : Context World) (reconcile : Script World) (s : DeviceState World)
      → (result (update parse_command parse_version env c ctx reconcile s) ≡ some none)
        ↔ Succeeds ctx reconcile s
  update_iff ctx reconcile s = (
    λ h. elim (Selected-cases (acquire ctx s)) [
      | inl (t, taken) ↦
          let within = acquire-Takes ctx s t taken in
          let (u, (found, ran)) = discovered-none reconcile (discover parse_version env ctx c t) (
            (result-releasing none _).0
              (ap result (sym (update-entered ctx reconcile s t within)) ∙ h)) in
          record { inside = t; locked = within; known = u; found = found; ran = ran }
      | inr (inl (t, ended)) ↦
          absurd (not_success (ap result (sym (update-given_up ctx reconcile s t ended)) ∙ h))
      | inr (inr (t, waits)) ↦
          absurd (not_waiting (ap result (sym (update-blocked ctx reconcile s t waits)) ∙ h))
    ],
    λ ok.
        ap result (update-entered ctx reconcile s ok.inside ok.locked)
        ∙ (result-releasing none _).1 (rw ok.found (discovered-Ran reconcile ok.known ok.ran)),
  )
    where
      not_success : some (some ctx.failure) ≡ some none → ⊥
      not_success h = ground arith

      nothing : Option (Option Failure)
      nothing = none

      not_waiting : nothing ≡ some none → ⊥
      not_waiting h = ground arith

  retain-is :
      (e : Failure) (error : Option Failure)
      → (f : Failure) × (retain (some e) error ≡ some f) × (is e e ≡ true → is f e ≡ true)
  unfolding retain is
  retain-is e none = (join e none, refl, λ h. h)
  retain-is e (some x) = elim (Bool-cases (is x e)) [
    | inl known ↦ (x, ground arith, λ _. known)
    | inr new ↦ (join e (some x), ground arith, ground arith)
  ]

  conclude_failed :
      (s : DeviceState World) (r : Option Failure × Scope × World) (e f : Failure)
      → r.1.error ≡ some e
      → retain (some e) r.0 ≡ some f
      → ((conclude parse_command parse_version env c s r).0 ≡ some f)
        × ((conclude parse_command parse_version env c s r).1.world ≡ r.2)
  unfolding conclude
  conclude_failed s r e f failed reported = ground arith

  -- Where an update's wait ends with the lock, the firmware is discovered and the callback leaves
  -- a retained failure, the update returns an error even if the callback returns none, that error
  -- is the failure in the sense of errors.Is if the failure is itself, and the world is the one
  -- the callback left: nothing is saved.
  pub update_failed :
      (ctx : Context World) (reconcile : Script World) (s inside t : DeviceState World)
      (e : Failure)
      → Takes is_locked fill_lock ctx.for_lock s inside
      → discover parse_version env ctx c inside ≡ returned none t
      → (run_script env c reconcile open_scope t.world).1.error ≡ some e
      → (f : Failure) × ((u : DeviceState World) × ((update parse_command parse_version env c ctx
                reconcile s
              ≡ returned (some f) u)
            × ((is e e ≡ true → is f e ≡ true)
                × (u.world ≡ (run_script env c reconcile open_scope t.world).2))))
  update_failed ctx reconcile s inside t e taken found failed =
      let r = run_script env c reconcile open_scope t.world in
      let (f, reported, known) = retain-is e r.0 in
      let (told, kept) = conclude_failed t r e f failed reported in
      let after = conclude parse_command parse_version env c t r in
      (
        f,
        (
          release after.1,
          (
            update-entered ctx reconcile s inside taken
                ∙ (rw found (ap (λ x. returned x (release after.1)) told)),
            (known, kept),
          ),
        ),
      )
