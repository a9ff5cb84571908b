-- ===== src/Config/Words.antt =====
-- internal/config/command_parser.go: `commandFields`, the machine `words`.
pub mod Split
use fastiron_tofu.Prelude.{ℕ, List, [], ◌∷◌, ◌++◌, none, Bytes, slice, ◌==◌, if◌then◌else◌}
use fastiron_tofu.Ragel.{Machine, Flow, go, run}

abbrev pub words_machine : Machine
words_machine = record {
  actions = 0 ∷ 1 ∷ 0 ∷ 1 ∷ 1 ∷ [];
  key_offsets = 0 ∷ 3 ∷ [];
  trans_keys = 32 ∷ 9 ∷ 13 ∷ 32 ∷ 9 ∷ 13 ∷ [];
  single_lengths = 1 ∷ 1 ∷ [];
  range_lengths = 1 ∷ 1 ∷ [];
  index_offsets = 0 ∷ 3 ∷ [];
  indicies = none;
  trans_targs = 1 ∷ 1 ∷ 0 ∷ 1 ∷ 1 ∷ 0 ∷ [];
  trans_actions = 3 ∷ 3 ∷ 0 ∷ 0 ∷ 0 ∷ 1 ∷ [];
  start = 1;
  first_final = 1;
  error = none;
}

pub record WordState : Type 0 where
  pub start : ℕ
  pub fields : List Bytes

-- `action mark` is 0 and `action word` is 1.
pub word_action : Bytes → ℕ → ℕ → WordState → Flow WordState
word_action input a p s = go (
    if a == 0
    then record s { start = p }
    else if a == 1
    then record s { fields = s.fields ++ slice input s.start p ∷ [] }
    else s)

unfoldable pub command_fields : Bytes → List Bytes
unfolding word_action run
command_fields input =
    let text = input ++ b' ' ∷ [] in
    (run words_machine (word_action text) text 0 1 (record { start = 0; fields = [] })).1.fields
