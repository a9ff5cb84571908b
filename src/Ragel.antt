-- ===== src/Ragel.antt =====
-- The table-driven automaton that Ragel writes into internal/config/parser.go, command_parser.go
-- and route_parser.go: the same search over the same tables, once for all machines.
pub mod Sinks
pub mod Invariant
pub mod Search
use fastiron_tofu.Prelude.{
  ℕ, zero, suc, ◌+◌, ◌-◌, ◌*◌, ◌/◌, true, false, List, [], ◌∷◌, Option, none, some, Bytes, get_or,
  take, drop, ltb, leb, ◌==◌, if◌then◌else◌, same_place,
}

pub record Machine : Type 0 where
  pub actions : List ℕ
  pub key_offsets : List ℕ
  pub trans_keys : List ℕ
  pub single_lengths : List ℕ
  pub range_lengths : List ℕ
  pub index_offsets : List ℕ
  -- The table that some machines have between a transition and its targets.
  pub indicies : Option (List ℕ)
  pub trans_targs : List ℕ
  pub trans_actions : List ℕ
  pub start : ℕ
  pub first_final : ℕ
  -- The state that stops the machine; `none` for the generated constant -1.
  pub error : Option ℕ

-- Binary search among the single keys from `lower` on and below `upper` (the source's `_upper + 1`).
-- The fuel is a bound on the rounds: the number of keys is enough.
pub find_single : ℕ → List ℕ → ℕ → ℕ → ℕ → Option ℕ
find_single zero keys lower upper c = none
find_single (suc fuel) keys lower upper c =
    let mid = lower + (upper - 1 - lower) / 2 in
    let left = find_single fuel keys lower mid c in
    let right = find_single fuel keys (mid + 1) upper c in
    if leb upper lower
    then none
    else if ltb c (get_or keys mid 0)
    then left
    else if ltb (get_or keys mid 0) c
    then right
    else some mid

-- The same among the ranges, two keys each; `upper` is the source's `_upper + 2`.
pub find_range : ℕ → List ℕ → ℕ → ℕ → ℕ → Option ℕ
find_range zero keys lower upper c = none
find_range (suc fuel) keys lower upper c =
    let mid = lower + 2 * ((upper - 2 - lower) / 4) in
    let left = find_range fuel keys lower mid c in
    let right = find_range fuel keys (mid + 2) upper c in
    if leb upper lower
    then none
    else if ltb c (get_or keys mid 0)
    then left
    else if ltb (get_or keys (mid + 1) 0) c
    then right
    else some mid

-- From `_resume` to `_match`: the number of the transition that state `cs` takes on byte `c`.
unfoldable pub transition : Machine → ℕ → ℕ → ℕ
unfolding find_single find_range
transition m cs c =
    let keys = get_or m.key_offsets cs 0 in
    let singles = get_or m.single_lengths cs 0 in
    let ranges = get_or m.range_lengths cs 0 in
    let base = get_or m.index_offsets cs 0 in
    elim (find_single singles m.trans_keys keys (keys + singles) c) [
      | some mid ↦ base + (mid - keys)
      | none ↦
          elim (find_range ranges m.trans_keys (keys + singles) (keys + singles + 2 * ranges) c) [
            | some mid ↦ base + singles + (mid - (keys + singles)) / 2
            | none ↦ base + singles + ranges
          ]
    ]

-- `_trans = _indicies[_trans]`, where the machine has the table.
abbrev pub indexed : Option (List ℕ) → ℕ → ℕ
indexed none trans = trans
indexed (some indicies) trans = get_or indicies trans 0

-- The actions of a transition, in order: none for 0, else a counted list in `actions`.
unfoldable pub actions_at : Machine → ℕ → List ℕ
actions_at m trans =
    let first = get_or m.trans_actions trans 0 in
    if first == 0 then [] else take (get_or m.actions first 0) (drop (first + 1) m.actions)

-- An action goes on with a new state, or leaves the loop.
pub data Flow {ℓ} (S : Type ℓ) : Type ℓ where
  go halt : S → Flow S

module _ {ℓ} {S : Type ℓ} (m : Machine) (act : ℕ → ℕ → S → Flow S) where
  -- All actions of one transition at position `p`.
  unfoldable pub perform : List ℕ → ℕ → S → Flow S
  perform [] p s = go s
  perform (a ∷ more) p s = elim (act a p s) [ halt t ↦ halt t | go t ↦ perform more p t ]

  -- The loop over the input: the last state of the machine, and what the actions made.
  unfoldable pub run : Bytes → ℕ → ℕ → S → ℕ × S
  unfolding transition actions_at perform
  run [] p cs s = (cs, s)
  run (c ∷ rest) p cs s =
      let trans = indexed m.indicies (transition m cs c) in
      let next = get_or m.trans_targs trans 0 in
      elim (perform (actions_at m trans) p s) [
        | halt t ↦ (next, t)
        | go t ↦ elim (same_place (some next) m.error) [
          | true ↦ (next, t)
          | false ↦ run rest (p + 1) next t
        ]
      ]
