-- ===== src/Ragel/Sinks.antt =====
-- A machine whose actions never leave the loop, and its states that every byte but one leads
-- back to.
use fastiron_tofu.Prelude.{
  ◌∙◌, none, ℕ, ◌+◌, ◌-◌, ◌/◌, ◌≡◌, ◌≢◌, refl, ap, Bool, true, false, List, [], ◌∷◌, ◌++◌, some,
  Bytes, get_or, ltb, leb, has_byte, if◌then◌else◌, same_place, arith, Bool-cases, inl, inr, ◌⊎◌,
}
use fastiron_tofu.Ragel.{
  Machine, Flow, go, perform, run, find_single, find_range, transition, indexed, actions_at,
}

not_both {ℓ} : {A : Type ℓ} {b : Bool} → b ≡ true → b ≡ false → A
not_both on off = absurd (ground arith)

has_byte-tail :
    (k c : ℕ) (xs : Bytes) → has_byte k (c ∷ xs) ≡ false → (c ≢ k) × (has_byte k xs ≡ false)
unfolding has_byte
has_byte-tail k c xs free = ground arith

ltb-cases : (k c : ℕ) → c ≢ k → (ltb c k ≡ true) ⊎ ((ltb c k ≡ false) × (ltb k c ≡ true))
ltb-cases k c other = ground arith

module _ (m : Machine) (cs k c : ℕ) where
  -- Where a state has one key and no range, another byte takes its last transition.
  transition-miss :
      get_or m.single_lengths cs 0 ≡ 1
      → get_or m.range_lengths cs 0 ≡ 0
      → get_or m.trans_keys (get_or m.key_offsets cs 0) 0 ≡ k
      → c ≢ k
      → transition m cs c ≡ get_or m.index_offsets cs 0 + 1
  unfolding transition find_single find_range
  transition-miss one no_range key other =
      let first = get_or m.key_offsets cs 0 in
      let at : first + (first + 1 - 1 - first) / 2 ≡ first = omega arith in
      let past : leb (first + 1) first ≡ false = ground arith in
      rw (transition, one)
        (rw at (
          rw (past, key)
            (elim (ltb-cases k c other) [
              | inl lower ↦ rw lower (rw no_range (omega (arith, one, no_range)))
              | inr (higher, beyond) ↦
                  rw higher (rw beyond (rw no_range (omega (arith, one, no_range))))
            ])))

abbrev entry : Machine → ℕ → ℕ → ℕ
entry m cs c = indexed m.indicies (transition m cs c)

entry-miss :
    (m : Machine) (cs k c : ℕ)
    → m.indicies ≡ none
    → get_or m.single_lengths cs 0 ≡ 1
    → get_or m.range_lengths cs 0 ≡ 0
    → get_or m.trans_keys (get_or m.key_offsets cs 0) 0 ≡ k
    → c ≢ k
    → entry m cs c ≡ get_or m.index_offsets cs 0 + 1
entry-miss m cs k c plain one no_range key other =
    ap (λ o. indexed o (transition m cs c)) plain ∙ transition-miss m cs k c one no_range key other

module _ {ℓ} {S : Type ℓ} (m : Machine) (step : ℕ → S → S) where
  abbrev pub acting : ℕ → ℕ → S → Flow S
  acting a p s = go (step a s)

  abbrev pub all_steps : List ℕ → S → S
  all_steps [] s = s
  all_steps (a ∷ more) s = all_steps more (step a s)

  perform-all_steps :
      (acts : List ℕ) (p : ℕ) (s : S) → perform m acting acts p s ≡ go (all_steps acts s)
  unfolding perform
  perform-all_steps [] p s = refl
  perform-all_steps (a ∷ more) p s = perform-all_steps more p (step a s)

  -- The loop without its positions.
  abbrev pub stepped : Bytes → ℕ → S → ℕ × S
  stepped [] cs s = (cs, s)
  stepped (c ∷ rest) cs s =
      let trans = entry m cs c in
      let next = get_or m.trans_targs trans 0 in
      let t = all_steps (actions_at m trans) s in
      let behind = stepped rest next t in
      if same_place (some next) m.error then (next, t) else behind

  pub run-stepped : (xs : Bytes) (p cs : ℕ) (s : S) → run m acting xs p cs s ≡ stepped xs cs s
  unfolding run
  run-stepped [] p cs s = refl
  run-stepped (c ∷ rest) p cs s =
      rw (run, perform-all_steps (actions_at m (entry m cs c)) p s)
        (elim (Bool-cases (same_place (some (get_or m.trans_targs (entry m cs c) 0)) m.error)) [
          | inl stop ↦ rw stop refl
          | inr next ↦ rw next (
              run-stepped rest (p + 1) (get_or m.trans_targs (entry m cs c) 0)
                (all_steps (actions_at m (entry m cs c)) s))
        ])

  pub stepped-append :
      (xs ys : Bytes) (cs : ℕ) (s t : S) (end : ℕ)
      → stepped xs cs s ≡ (end, t)
      → same_place (some end) m.error ≡ false
      → stepped (xs ++ ys) cs s ≡ stepped ys end t
  stepped-append [] ys cs s t end e alive = cc
  stepped-append (c ∷ xs) ys cs s t end e alive =
      elim (Bool-cases (same_place (some (get_or m.trans_targs (entry m cs c) 0)) m.error)) [
        | inl stop ↦
            let halted : (
              get_or m.trans_targs (entry m cs c) 0,
              all_steps (actions_at m (entry m cs c)) s,
            )
                ≡ (end, t) =
              rw stop at e in
            let ended : same_place (some end) m.error ≡ true = rw (← (ap (λ x. x.0) halted)) stop in
            not_both ended alive
        | inr next ↦ rw next (stepped-append xs ys _ _ t end (rw next at e) alive)
      ]

  -- From such a state on, a text without the one byte leaves the state and what was made of it.
  pub stepped-sink :
      (cs k : ℕ) (t : S)
      → m.indicies ≡ none
      → get_or m.single_lengths cs 0 ≡ 1
      → get_or m.range_lengths cs 0 ≡ 0
      → get_or m.trans_keys (get_or m.key_offsets cs 0) 0 ≡ k
      → get_or m.trans_targs (get_or m.index_offsets cs 0 + 1) 0 ≡ cs
      → all_steps (actions_at m (get_or m.index_offsets cs 0 + 1)) t ≡ t
      → (xs : Bytes) → has_byte k xs ≡ false
      → stepped xs cs t ≡ (cs, t)
  stepped-sink cs k t plain one none_else key back settled [] free = refl
  stepped-sink cs k t plain one none_else key back settled (c ∷ xs) free =
      let (other, rest_free) = has_byte-tail k c xs free in
      rw (entry-miss m cs k c plain one none_else key other, back, settled)
        (elim (Bool-cases (same_place (some cs) m.error)) [
          | inl stop ↦ rw stop refl
          | inr next ↦
              rw next (stepped-sink cs k t plain one none_else key back settled xs rest_free)
        ])
