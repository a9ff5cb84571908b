-- ===== src/Config/MemberName/Tables.antt =====
-- internal/config/command_parser.go: the tables of the machine `member_name`.
use fastiron_tofu.Prelude.{ℕ, List, [], ◌∷◌}

abbrev pub member_name_actions : List ℕ
member_name_actions = 0 ∷ 1 ∷ 0 ∷ 1 ∷ 1 ∷ []

abbrev pub member_name_trans_keys : List ℕ
member_name_trans_keys =
    9 ∷ 32 ∷ 112 ∷ 111 ∷ 114 ∷ 116 ∷ 45 ∷ 110 ∷ 97 ∷ 109 ∷ 101 ∷ 9 ∷ 32 ∷ 9 ∷ 32 ∷ 10 ∷ 13 ∷ 9 ∷ 10
    ∷ 32 ∷ 9 ∷ 10 ∷ 32 ∷ 101 ∷ 9 ∷ 10 ∷ 32 ∷ 116 ∷ 9 ∷ 10 ∷ 32 ∷ 104 ∷ 9 ∷ 10 ∷ 32 ∷ 101 ∷ 9 ∷ 10
    ∷ 32 ∷ 114 ∷ 9 ∷ 10 ∷ 32 ∷ 110 ∷ 9 ∷ 10 ∷ 32 ∷ 101 ∷ 9 ∷ 10 ∷ 32 ∷ 116 ∷ 9 ∷ 10 ∷ 32 ∷ 9 ∷ 10
    ∷ 32 ∷ 101 ∷ 49 ∷ 57 ∷ 9 ∷ 10 ∷ 32 ∷ 47 ∷ 48 ∷ 57 ∷ 9 ∷ 10 ∷ 32 ∷ 49 ∷ 57 ∷ 9 ∷ 10 ∷ 32 ∷ 47
    ∷ 48 ∷ 57 ∷ 9 ∷ 10 ∷ 32 ∷ 49 ∷ 57 ∷ 9 ∷ 10 ∷ 32 ∷ 48 ∷ 57 ∷ []

abbrev pub member_name_key_offsets : List ℕ
member_name_key_offsets =
    0 ∷ 0 ∷ 3 ∷ 4 ∷ 5 ∷ 6 ∷ 7 ∷ 8 ∷ 9 ∷ 10 ∷ 11 ∷ 13 ∷ 17 ∷ 20 ∷ 24 ∷ 28 ∷ 32 ∷ 36 ∷ 40 ∷ 44 ∷ 48
    ∷ 52 ∷ 55 ∷ 61 ∷ 67 ∷ 72 ∷ 78 ∷ 83 ∷ 88 ∷ []

abbrev pub member_name_single_lengths : List ℕ
member_name_single_lengths =
    0 ∷ 3 ∷ 1 ∷ 1 ∷ 1 ∷ 1 ∷ 1 ∷ 1 ∷ 1 ∷ 1 ∷ 2 ∷ 2 ∷ 3 ∷ 4 ∷ 4 ∷ 4 ∷ 4 ∷ 4 ∷ 4 ∷ 4 ∷ 4 ∷ 3 ∷ 4 ∷ 4
    ∷ 3 ∷ 4 ∷ 3 ∷ 3 ∷ 0 ∷ []

abbrev pub member_name_range_lengths : List ℕ
member_name_range_lengths =
    0 ∷ 0 ∷ 0 ∷ 0 ∷ 0 ∷ 0 ∷ 0 ∷ 0 ∷ 0 ∷ 0 ∷ 0 ∷ 1 ∷ 0 ∷ 0 ∷ 0 ∷ 0 ∷ 0 ∷ 0 ∷ 0 ∷ 0 ∷ 0 ∷ 0 ∷ 1 ∷ 1
    ∷ 1 ∷ 1 ∷ 1 ∷ 1 ∷ 0 ∷ []

abbrev pub member_name_index_offsets : List ℕ
member_name_index_offsets =
    0 ∷ 0 ∷ 4 ∷ 6 ∷ 8 ∷ 10 ∷ 12 ∷ 14 ∷ 16 ∷ 18 ∷ 20 ∷ 23 ∷ 27 ∷ 31 ∷ 36 ∷ 41 ∷ 46 ∷ 51 ∷ 56 ∷ 61
    ∷ 66 ∷ 71 ∷ 75 ∷ 81 ∷ 87 ∷ 92 ∷ 98 ∷ 103 ∷ 108 ∷ []

abbrev pub member_name_indicies : List ℕ
member_name_indicies =
    0 ∷ 0 ∷ 2 ∷ 1 ∷ 3 ∷ 1 ∷ 4 ∷ 1 ∷ 5 ∷ 1 ∷ 6 ∷ 1 ∷ 7 ∷ 1 ∷ 8 ∷ 1 ∷ 9 ∷ 1 ∷ 10 ∷ 1 ∷ 11 ∷ 11 ∷ 1
    ∷ 11 ∷ 11 ∷ 1 ∷ 12 ∷ 13 ∷ 1 ∷ 13 ∷ 12 ∷ 13 ∷ 1 ∷ 13 ∷ 14 ∷ 12 ∷ 13 ∷ 1 ∷ 13 ∷ 15 ∷ 12 ∷ 13 ∷ 1
    ∷ 13 ∷ 16 ∷ 12 ∷ 13 ∷ 1 ∷ 13 ∷ 17 ∷ 12 ∷ 13 ∷ 1 ∷ 13 ∷ 18 ∷ 12 ∷ 13 ∷ 1 ∷ 13 ∷ 19 ∷ 12 ∷ 13 ∷ 1
    ∷ 13 ∷ 20 ∷ 12 ∷ 13 ∷ 1 ∷ 13 ∷ 21 ∷ 12 ∷ 22 ∷ 1 ∷ 22 ∷ 12 ∷ 22 ∷ 1 ∷ 22 ∷ 14 ∷ 23 ∷ 12 ∷ 13 ∷ 1
    ∷ 13 ∷ 24 ∷ 25 ∷ 12 ∷ 13 ∷ 1 ∷ 13 ∷ 26 ∷ 12 ∷ 13 ∷ 1 ∷ 13 ∷ 27 ∷ 26 ∷ 12 ∷ 13 ∷ 1 ∷ 13 ∷ 28 ∷ 12
    ∷ 13 ∷ 29 ∷ 13 ∷ 28 ∷ 12 ∷ 1 ∷ []

abbrev pub member_name_trans_targs : List ℕ
member_name_trans_targs =
    1 ∷ 0 ∷ 2 ∷ 3 ∷ 4 ∷ 5 ∷ 6 ∷ 7 ∷ 8 ∷ 9 ∷ 10 ∷ 11 ∷ 12 ∷ 13 ∷ 14 ∷ 15 ∷ 16 ∷ 17 ∷ 18 ∷ 19 ∷ 20
    ∷ 21 ∷ 22 ∷ 23 ∷ 24 ∷ 23 ∷ 25 ∷ 26 ∷ 27 ∷ 28 ∷ []

abbrev pub member_name_trans_actions : List ℕ
member_name_trans_actions =
    0 ∷ 0 ∷ 0 ∷ 0 ∷ 0 ∷ 0 ∷ 0 ∷ 0 ∷ 0 ∷ 0 ∷ 0 ∷ 0 ∷ 0 ∷ 0 ∷ 0 ∷ 0 ∷ 0 ∷ 0 ∷ 0 ∷ 0 ∷ 0 ∷ 0 ∷ 0 ∷ 1
    ∷ 0 ∷ 0 ∷ 0 ∷ 0 ∷ 0 ∷ 3 ∷ []
