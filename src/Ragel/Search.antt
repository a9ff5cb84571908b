-- ===== src/Ragel/Search.antt =====
-- The binary search for a single key: the number of keys is fuel enough, and it finds each key.
use fastiron_tofu.Prelude.{
  ℕ, zero, suc, ◌+◌, ◌-◌, ◌*◌, ◌/◌, ◌≤◌, ◌<◌, ◌≡◌, ◌⊎◌, sym, ◌∙◌, ap, true, false, List, Option,
  none, some, get_or, leb, ltb, arith, Bool-cases, inl, inr,
}
use fastiron_tofu.Ragel.{Machine, find_single, find_range, transition}

-- The keys ascend between two places.
abbrev pub Ascends : List ℕ → ℕ → ℕ → Type 0
Ascends keys lower upper =
    (i j : ℕ) → lower ≤ i → i < j → j < upper → get_or keys i 0 < get_or keys j 0

order : (a b : ℕ) → (a < b) ⊎ ((a ≡ b) ⊎ (b < a))
order a b = elim (Bool-cases (ltb a b)) [
  | inl less ↦ inl (ground arith)
  | inr not_less ↦ elim (Bool-cases (ltb b a)) [
    | inl more ↦ inr (inr (ground arith))
    | inr not_more ↦ inr (inl (ground arith))
  ]
]

module _ (keys : List ℕ) (c : ℕ) where
  pub find_single-some :
      (fuel lower upper j : ℕ)
      → Ascends keys lower upper
      → upper ≤ lower + fuel
      → lower ≤ j
      → j < upper
      → get_or keys j 0 ≡ c
      → find_single fuel keys lower upper c ≡ some j
  unfolding find_single
  find_single-some zero lower upper j up enough lo hi at = absurd (omega arith)
  find_single-some (suc fuel) lower upper j up enough lo hi at =
      let mid = lower + (upper - 1 - lower) / 2 in
      let open_range : leb upper lower ≡ false = ground arith in
      let inside : (lower ≤ mid) × (mid < upper) = (omega arith, omega arith) in
      elim (order j mid) [
        | inl before ↦
            let less : get_or keys j 0 < get_or keys mid 0 = up j mid lo before inside.1 in
            let below : ltb c (get_or keys mid 0) ≡ true = ground arith in
            rw (open_range, below)
              (find_single-some fuel lower mid j (λ a b la ab bm. up a b la ab (omega arith))
                (omega arith) lo before at)
        | inr (inl same) ↦
            let equal : get_or keys mid 0 ≡ c = ap (λ k. get_or keys k 0) (sym same) ∙ at in
            let not_below : ltb c (get_or keys mid 0) ≡ false = ground arith in
            let not_above : ltb (get_or keys mid 0) c ≡ false = ground arith in
            rw (open_range, not_below, not_above) (ap some (sym same))
        | inr (inr behind) ↦
            let less : get_or keys mid 0 < get_or keys j 0 = up mid j inside.0 behind hi in
            let not_below : ltb c (get_or keys mid 0) ≡ false = ground arith in
            let above : ltb (get_or keys mid 0) c ≡ true = ground arith in
            rw (open_range, not_below, above)
              (find_single-some fuel (mid + 1) upper j (λ a b la ab bm. up a b (omega arith) ab bm)
                (omega arith) (omega arith) hi at)
      ]

-- A byte that is the k-th single key of a state takes the k-th transition of the state, where the
-- single keys of the state ascend: the number of keys is fuel enough for the binary search to end
-- at it.
pub transition-single :
    (m : Machine) (cs c k : ℕ)
    → k < get_or m.single_lengths cs 0
    → Ascends m.trans_keys
        (get_or m.key_offsets cs 0)
        (get_or m.key_offsets cs 0 + get_or m.single_lengths cs 0)
    → get_or m.trans_keys (get_or m.key_offsets cs 0 + k) 0 ≡ c
    → transition m cs c ≡ get_or m.index_offsets cs 0 + k
unfolding transition
transition-single m cs c k small up at =
    let keys = get_or m.key_offsets cs 0 in
    let singles = get_or m.single_lengths cs 0 in
    let found =
      find_single-some m.trans_keys c singles keys (keys + singles) (keys + k) up (omega arith)
        (omega arith) (omega (arith, small)) at in
    ap (λ f. taken m cs c f) found ∙ omega arith
  where
    taken : Machine → ℕ → ℕ → Option ℕ → ℕ
    taken m cs c (some mid) = get_or m.index_offsets cs 0 + (mid - get_or m.key_offsets cs 0)
    taken m cs c none =
        elim (find_range (get_or m.range_lengths cs 0) m.trans_keys
          (get_or m.key_offsets cs 0 + get_or m.single_lengths cs 0)
          (get_or m.key_offsets cs 0
            + get_or m.single_lengths cs 0
            + 2 * get_or m.range_lengths cs 0)
          c) [
            | some mid ↦
                get_or m.index_offsets cs 0
                + get_or m.single_lengths cs 0
                + (mid - (get_or m.key_offsets cs 0 + get_or m.single_lengths cs 0)) / 2
            | none ↦
                get_or m.index_offsets cs 0
                + get_or m.single_lengths cs 0
                + get_or m.range_lengths cs 0
          ]
