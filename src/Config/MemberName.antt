-- ===== src/Config/MemberName.antt =====
-- internal/config/command_parser.go: `lagNamedPort`, the machine `member_name`.
pub mod Tables
mod Tests
use fastiron_tofu.Prelude.{ℕ, ◌++◌, ◌∷◌, [], some, Bytes, codes, slice, ltb, ◌==◌, if◌then◌else◌}
use fastiron_tofu.Ragel.{Machine, go, run}
use fastiron_tofu.Config.MemberName.Tables.{
  member_name_actions, member_name_trans_keys, member_name_key_offsets, member_name_single_lengths,
  member_name_range_lengths, member_name_index_offsets, member_name_indicies,
  member_name_trans_targs, member_name_trans_actions,
}

abbrev pub member_name_machine : Machine
member_name_machine = record {
  actions = member_name_actions;
  key_offsets = member_name_key_offsets;
  trans_keys = member_name_trans_keys;
  single_lengths = member_name_single_lengths;
  range_lengths = member_name_range_lengths;
  index_offsets = member_name_index_offsets;
  indicies = some member_name_indicies;
  trans_targs = member_name_trans_targs;
  trans_actions = member_name_trans_actions;
  start = 1;
  first_final = 28;
  error = some 0;
}

pub record MemberState : Type 0 where
  pub start : ℕ
  pub port : Bytes

-- `start` is action 0, and action 1 takes the port.
pub member_action : Bytes → ℕ → ℕ → MemberState → MemberState
member_action input p a s =
    if a == 0
    then record s { start = p }
    else record s { port = codes "ethernet " ++ slice input s.start p }

unfoldable pub lag_named_port : Bytes → Bytes
unfolding member_action run
lag_named_port input =
    let text = input ++ b'\n' ∷ [] in
    let (cs, s) =
      run member_name_machine (λ a p s. go (member_action text p a s)) text 0 1
        (record { start = 0; port = [] }) in
    if ltb cs 28 then [] else s.port
