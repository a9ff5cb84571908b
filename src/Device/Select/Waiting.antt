-- ===== src/Device/Select/Waiting.antt =====
-- When a `select` of device.go fills its gate, when it gives up, and when it does not block.
use fastiron_tofu.Prelude.{Bool, true, false, ◌≡◌, ◌⊎◌, List, [], ◌∷◌, arith, inl, inr}
use fastiron_tofu.Device.Select.{Moment, blocked, entered, given_up, select}

module _ {State : Type 0} (is_full : State → Bool) (take : State → State) where
  -- At some moment the gate is free, and the context has not ended or loses the choice; until
  -- then the gate is full and the context goes on. The gate is filled in the state of the moment.
  abbrev pub Takes : List (Moment State) → State → State → Type 0
  Takes [] s t = ⊥
  Takes (m ∷ more) s t =
      ((is_full (m.others s) ≡ false)
        × (((m.ended ≡ false) ⊎ (m.prefers_gate ≡ true)) × (take (m.others s) ≡ t)))
      ⊎ ((is_full (m.others s) ≡ true) × ((m.ended ≡ false) × Takes more (m.others s) t))

  -- At some moment the context has ended, and the gate is full or loses the choice.
  abbrev pub GivesUp : List (Moment State) → State → State → Type 0
  GivesUp [] s t = ⊥
  GivesUp (m ∷ more) s t =
      ((m.ended ≡ true)
        × (((is_full (m.others s) ≡ true) ⊎ (m.prefers_gate ≡ false)) × (m.others s ≡ t)))
      ⊎ ((is_full (m.others s) ≡ true) × ((m.ended ≡ false) × GivesUp more (m.others s) t))

  -- At some moment the gate is free or the context has ended.
  abbrev pub IsReady : List (Moment State) → State → Type 0
  IsReady [] s = ⊥
  IsReady (m ∷ more) s =
      (is_full (m.others s) ≡ false) ⊎ ((m.ended ≡ true) ⊎ IsReady more (m.others s))

  pub select-Takes :
      (moments : List (Moment State)) (s t : State)
      → select is_full take moments s ≡ entered t
      → Takes moments s t
  unfolding select
  select-Takes [] s t e = absurd (ground arith)
  select-Takes (m ∷ more) s t e = ground (arith, select-Takes more (m.others s) t)

  pub Takes-select :
      (moments : List (Moment State)) (s t : State)
      → Takes moments s t
      → select is_full take moments s ≡ entered t
  unfolding select
  Takes-select [] s t h = absurd h
  Takes-select (m ∷ more) s t (inl (empty, (ready, same))) = ground arith
  Takes-select (m ∷ more) s t (inr (full, (live, h))) =
      rw (full, live) (Takes-select more (m.others s) t h)

  pub select-GivesUp :
      (moments : List (Moment State)) (s t : State)
      → select is_full take moments s ≡ given_up t
      → GivesUp moments s t
  unfolding select
  select-GivesUp [] s t e = absurd (ground arith)
  select-GivesUp (m ∷ more) s t e = ground (arith, select-GivesUp more (m.others s) t)

  pub select-IsReady :
      (moments : List (Moment State)) (s t : State)
      → IsReady moments s
      → select is_full take moments s ≡ blocked t
      → ⊥
  unfolding select
  select-IsReady [] s t h e = h
  select-IsReady (m ∷ more) s t h e = ground (arith, select-IsReady more (m.others s) t)
