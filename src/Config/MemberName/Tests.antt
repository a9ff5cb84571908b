-- ===== src/Config/MemberName/Tests.antt =====
-- A state of the machine `member_name` whose keys the search finds.
use fastiron_tofu.Prelude.{zero, suc, ◌≡◌, refl, ◌+◌, arith}
use fastiron_tofu.Ragel.{transition}
use fastiron_tofu.Ragel.Search.{Ascends, transition-single}
use fastiron_tofu.Config.MemberName.{member_name_machine}

first_keys-Ascends : Ascends member_name_machine.trans_keys 0 3
first_keys-Ascends zero zero lo less hi = absurd (omega arith)
first_keys-Ascends zero (suc zero) lo less hi = omega arith
first_keys-Ascends zero (suc (suc zero)) lo less hi = omega arith
first_keys-Ascends (suc zero) (suc (suc zero)) lo less hi = omega arith
first_keys-Ascends i (suc (suc (suc j))) lo less hi = absurd (omega arith)
first_keys-Ascends (suc i) zero lo less hi = absurd (omega arith)
first_keys-Ascends (suc i) (suc zero) lo less hi = absurd (omega arith)
first_keys-Ascends (suc (suc i)) (suc (suc zero)) lo less hi = absurd (omega arith)

transition-single_example : transition member_name_machine 1 b'p' ≡ 0 + 2
transition-single_example =
    transition-single member_name_machine 1 b'p' 2 (omega arith) first_keys-Ascends refl
