-- ===== src/Config/CommandKind/Keys.antt =====
-- internal/config/command_parser.go: the keys and the actions of the machine `command`.
use fastiron_tofu.Prelude.{ℕ, List, [], ◌∷◌}

abbrev pub command_actions : List ℕ
command_actions =
    0 ∷ 1 ∷ 0 ∷ 1 ∷ 1 ∷ 1 ∷ 2 ∷ 1 ∷ 3 ∷ 1 ∷ 4 ∷ 1 ∷ 5 ∷ 1 ∷ 6 ∷ 1 ∷ 7 ∷ 1 ∷ 8 ∷ 1 ∷ 9 ∷ 1 ∷ 10 ∷ 1
    ∷ 11 ∷ 1 ∷ 12 ∷ 1 ∷ 13 ∷ 1 ∷ 14 ∷ 1 ∷ 15 ∷ 1 ∷ 16 ∷ 1 ∷ 17 ∷ 1 ∷ 18 ∷ 1 ∷ 19 ∷ 1 ∷ 20 ∷ 1 ∷ 21
    ∷ 1 ∷ 22 ∷ 1 ∷ 23 ∷ 1 ∷ 24 ∷ 1 ∷ 25 ∷ 1 ∷ 26 ∷ 1 ∷ 27 ∷ 1 ∷ 28 ∷ 1 ∷ 29 ∷ 1 ∷ 30 ∷ []

abbrev pub command_trans_keys : List ℕ
command_trans_keys =
    97 ∷ 98 ∷ 100 ∷ 105 ∷ 106 ∷ 108 ∷ 109 ∷ 110 ∷ 112 ∷ 114 ∷ 115 ∷ 116 ∷ 117 ∷ 118 ∷ 114 ∷ 101 ∷ 97
    ∷ 114 ∷ 111 ∷ 97 ∷ 100 ∷ 99 ∷ 97 ∷ 115 ∷ 116 ∷ 9 ∷ 32 ∷ 9 ∷ 32 ∷ 108 ∷ 105 ∷ 109 ∷ 105 ∷ 116
    ∷ 101 ∷ 105 ∷ 102 ∷ 97 ∷ 117 ∷ 108 ∷ 116 ∷ 45 ∷ 118 ∷ 108 ∷ 97 ∷ 110 ∷ 45 ∷ 105 ∷ 100 ∷ 115 ∷ 97
    ∷ 98 ∷ 108 ∷ 101 ∷ 110 ∷ 112 ∷ 108 ∷ 116 ∷ 105 ∷ 110 ∷ 101 ∷ 9 ∷ 32 ∷ 9 ∷ 32 ∷ 112 ∷ 111 ∷ 119
    ∷ 101 ∷ 114 ∷ 101 ∷ 114 ∷ 102 ∷ 97 ∷ 99 ∷ 101 ∷ 9 ∷ 32 ∷ 118 ∷ 9 ∷ 32 ∷ 97 ∷ 100 ∷ 109 ∷ 111
    ∷ 114 ∷ 99 ∷ 99 ∷ 101 ∷ 115 ∷ 115 ∷ 45 ∷ 108 ∷ 105 ∷ 115 ∷ 116 ∷ 110 ∷ 115 ∷ 9 ∷ 32 ∷ 9 ∷ 32
    ∷ 115 ∷ 101 ∷ 114 ∷ 118 ∷ 101 ∷ 114 ∷ 45 ∷ 97 ∷ 100 ∷ 100 ∷ 114 ∷ 101 ∷ 115 ∷ 115 ∷ 117 ∷ 108
    ∷ 116 ∷ 105 ∷ 99 ∷ 97 ∷ 115 ∷ 116 ∷ 115 ∷ 112 ∷ 102 ∷ 111 ∷ 117 ∷ 116 ∷ 101 ∷ 54 ∷ 9 ∷ 32 ∷ 9
    ∷ 32 ∷ 97 ∷ 100 ∷ 117 ∷ 109 ∷ 98 ∷ 111 ∷ 97 ∷ 108 ∷ 103 ∷ 100 ∷ 112 ∷ 9 ∷ 32 ∷ 9 ∷ 32 ∷ 101
    ∷ 109 ∷ 114 ∷ 110 ∷ 97 ∷ 98 ∷ 108 ∷ 101 ∷ 9 ∷ 32 ∷ 9 ∷ 32 ∷ 112 ∷ 114 ∷ 116 ∷ 111 ∷ 114 ∷ 116
    ∷ 115 ∷ 101 ∷ 99 ∷ 101 ∷ 105 ∷ 118 ∷ 101 ∷ 9 ∷ 32 ∷ 9 ∷ 32 ∷ 112 ∷ 114 ∷ 97 ∷ 110 ∷ 115 ∷ 109
    ∷ 105 ∷ 116 ∷ 101 ∷ 100 ∷ 9 ∷ 32 ∷ 9 ∷ 32 ∷ 110 ∷ 101 ∷ 116 ∷ 119 ∷ 111 ∷ 114 ∷ 107 ∷ 45 ∷ 112
    ∷ 111 ∷ 108 ∷ 105 ∷ 99 ∷ 121 ∷ 117 ∷ 110 ∷ 97 ∷ 117 ∷ 99 ∷ 9 ∷ 32 ∷ 9 ∷ 32 ∷ 97 ∷ 108 ∷ 116
    ∷ 105 ∷ 99 ∷ 97 ∷ 115 ∷ 116 ∷ 111 ∷ 9 ∷ 32 ∷ 9 ∷ 32 ∷ 105 ∷ 108 ∷ 115 ∷ 110 ∷ 108 ∷ 108 ∷ 112
    ∷ 116 ∷ 97 ∷ 110 ∷ 110 ∷ 105 ∷ 110 ∷ 103 ∷ 45 ∷ 116 ∷ 114 ∷ 101 ∷ 101 ∷ 112 ∷ 45 ∷ 98 ∷ 112
    ∷ 100 ∷ 117 ∷ 45 ∷ 103 ∷ 117 ∷ 97 ∷ 114 ∷ 100 ∷ 111 ∷ 114 ∷ 114 ∷ 116 ∷ 45 ∷ 115 ∷ 110 ∷ 97
    ∷ 109 ∷ 101 ∷ 111 ∷ 116 ∷ 101 ∷ 99 ∷ 116 ∷ 101 ∷ 100 ∷ 45 ∷ 112 ∷ 111 ∷ 114 ∷ 116 ∷ 111 ∷ 117
    ∷ 116 ∷ 101 ∷ 114 ∷ 9 ∷ 32 ∷ 9 ∷ 32 ∷ 111 ∷ 115 ∷ 112 ∷ 102 ∷ 112 ∷ 116 ∷ 121 ∷ 109 ∷ 109 ∷ 101
    ∷ 116 ∷ 114 ∷ 105 ∷ 99 ∷ 97 ∷ 108 ∷ 45 ∷ 102 ∷ 108 ∷ 111 ∷ 119 ∷ 45 ∷ 99 ∷ 111 ∷ 110 ∷ 116 ∷ 114
    ∷ 111 ∷ 108 ∷ 9 ∷ 32 ∷ 10 ∷ 114 ∷ 117 ∷ 115 ∷ 116 ∷ 9 ∷ 32 ∷ 9 ∷ 32 ∷ 100 ∷ 115 ∷ 99 ∷ 112 ∷ 110
    ∷ 107 ∷ 110 ∷ 111 ∷ 119 ∷ 110 ∷ 45 ∷ 117 ∷ 110 ∷ 105 ∷ 108 ∷ 111 ∷ 114 ∷ 97 ∷ 110 ∷ 105 ∷ 99
    ∷ 101 ∷ 45 ∷ 118 ∷ 108 ∷ 97 ∷ 110 ∷ 102 ∷ 9 ∷ 32 ∷ 9 ∷ 32 ∷ 102 ∷ 111 ∷ 114 ∷ 119 ∷ 97 ∷ 114
    ∷ 100 ∷ 105 ∷ 110 ∷ 103 ∷ 9 ∷ 32 ∷ 10 ∷ 9 ∷ 32 ∷ 10 ∷ 10 ∷ 9 ∷ 32 ∷ 10 ∷ 9 ∷ 32 ∷ 9 ∷ 10 ∷ 32
    ∷ 101 ∷ 10 ∷ 10 ∷ 116 ∷ 10 ∷ 104 ∷ 10 ∷ 101 ∷ 9 ∷ 10 ∷ 32 ∷ 114 ∷ 10 ∷ 10 ∷ 110 ∷ 10 ∷ 101 ∷ 10
    ∷ 116 ∷ 9 ∷ 10 ∷ 32 ∷ 9 ∷ 32 ∷ 10 ∷ 10 ∷ 9 ∷ 32 ∷ 10 ∷ 9 ∷ 32 ∷ 10 ∷ 9 ∷ 32 ∷ 9 ∷ 10 ∷ 32 ∷ 97
    ∷ 10 ∷ 10 ∷ 114 ∷ 10 ∷ 101 ∷ 10 ∷ 97 ∷ 9 ∷ 10 ∷ 32 ∷ 10 ∷ 9 ∷ 32 ∷ 10 ∷ 9 ∷ 32 ∷ 10 ∷ 9 ∷ 32
    ∷ 10 ∷ 9 ∷ 32 ∷ 10 ∷ 9 ∷ 32 ∷ 10 ∷ 9 ∷ 32 ∷ 10 ∷ 9 ∷ 32 ∷ 9 ∷ 10 ∷ 32 ∷ 108 ∷ 10 ∷ 105 ∷ 10
    ∷ 109 ∷ 10 ∷ 105 ∷ 10 ∷ 116 ∷ 9 ∷ 10 ∷ 32 ∷ 9 ∷ 32 ∷ 9 ∷ 10 ∷ 32 ∷ 56 ∷ 114 ∷ 10 ∷ 10 ∷ 48 ∷ 10
    ∷ 50 ∷ 10 ∷ 45 ∷ 10 ∷ 49 ∷ 10 ∷ 119 ∷ 9 ∷ 10 ∷ 32 ∷ 9 ∷ 10 ∷ 32 ∷ 97 ∷ 10 ∷ 100 ∷ 10 ∷ 109 ∷ 10
    ∷ 105 ∷ 10 ∷ 110 ∷ 10 ∷ 45 ∷ 10 ∷ 101 ∷ 10 ∷ 100 ∷ 10 ∷ 103 ∷ 10 ∷ 101 ∷ 10 ∷ 45 ∷ 10 ∷ 112 ∷ 10
    ∷ 111 ∷ 10 ∷ 114 ∷ 10 ∷ 116 ∷ 9 ∷ 10 ∷ 32 ∷ 10 ∷ 10 ∷ 111 ∷ 10 ∷ 111 ∷ 10 ∷ 116 ∷ 10 ∷ 45 ∷ 10
    ∷ 112 ∷ 10 ∷ 114 ∷ 10 ∷ 111 ∷ 10 ∷ 116 ∷ 10 ∷ 101 ∷ 10 ∷ 99 ∷ 10 ∷ 116 ∷ 9 ∷ 10 ∷ 32 ∷ 10 ∷ 9
    ∷ 32 ∷ 10 ∷ 9 ∷ 32 ∷ 10 ∷ 9 ∷ 32 ∷ 10 ∷ 9 ∷ 32 ∷ 10 ∷ 9 ∷ 32 ∷ 10 ∷ 10 ∷ 9 ∷ 32 ∷ 10 ∷ 9 ∷ 32
    ∷ 10 ∷ 9 ∷ 32 ∷ 10 ∷ 9 ∷ 32 ∷ 10 ∷ []
