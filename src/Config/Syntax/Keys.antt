-- ===== src/Config/Syntax/Keys.antt =====
-- internal/config/command_parser.go: the actions and the keys of the machine `syntax`.
use fastiron_tofu.Prelude.{ℕ, List, [], ◌∷◌, ◌++◌}

abbrev pub syntax_actions : List ℕ
syntax_actions =
    0 ∷ 1 ∷ 0 ∷ 1 ∷ 1 ∷ 1 ∷ 2 ∷ 1 ∷ 3 ∷ 1 ∷ 4 ∷ 1 ∷ 5 ∷ 1 ∷ 6 ∷ 1 ∷ 7 ∷ 1 ∷ 8 ∷ 1 ∷ 9 ∷ 1 ∷ 10 ∷ 1
    ∷ 11 ∷ 1 ∷ 12 ∷ 1 ∷ 13 ∷ 1 ∷ 14 ∷ 1 ∷ 15 ∷ 1 ∷ 16 ∷ 1 ∷ 17 ∷ 1 ∷ 21 ∷ 1 ∷ 22 ∷ 1 ∷ 26 ∷ 1 ∷ 27
    ∷ 1 ∷ 28 ∷ 1 ∷ 29 ∷ 1 ∷ 30 ∷ 1 ∷ 31 ∷ 1 ∷ 32 ∷ 1 ∷ 33 ∷ 2 ∷ 1 ∷ 4 ∷ 2 ∷ 1 ∷ 18 ∷ 2 ∷ 1 ∷ 19 ∷ 2
    ∷ 1 ∷ 20 ∷ 2 ∷ 1 ∷ 23 ∷ 2 ∷ 1 ∷ 24 ∷ 2 ∷ 1 ∷ 25 ∷ []

abbrev pub syntax_trans_keys_early : List ℕ
syntax_trans_keys_early =
    97 ∷ 98 ∷ 100 ∷ 105 ∷ 106 ∷ 108 ∷ 109 ∷ 110 ∷ 112 ∷ 114 ∷ 115 ∷ 116 ∷ 117 ∷ 118 ∷ 114 ∷ 101 ∷ 97
    ∷ 9 ∷ 32 ∷ 9 ∷ 32 ∷ 48 ∷ 57 ∷ 9 ∷ 10 ∷ 32 ∷ 46 ∷ 48 ∷ 57 ∷ 9 ∷ 32 ∷ 10 ∷ 13 ∷ 9 ∷ 10 ∷ 32 ∷ 11
    ∷ 13 ∷ 48 ∷ 57 ∷ 46 ∷ 48 ∷ 57 ∷ 48 ∷ 57 ∷ 46 ∷ 48 ∷ 57 ∷ 48 ∷ 57 ∷ 9 ∷ 10 ∷ 32 ∷ 48 ∷ 57 ∷ 114
    ∷ 111 ∷ 97 ∷ 100 ∷ 99 ∷ 97 ∷ 115 ∷ 116 ∷ 9 ∷ 32 ∷ 9 ∷ 32 ∷ 108 ∷ 105 ∷ 109 ∷ 105 ∷ 116 ∷ 9 ∷ 32
    ∷ 9 ∷ 32 ∷ 43 ∷ 48 ∷ 57 ∷ 48 ∷ 57 ∷ 9 ∷ 10 ∷ 32 ∷ 48 ∷ 57 ∷ 9 ∷ 32 ∷ 107 ∷ 108 ∷ 112 ∷ 116 ∷ 98
    ∷ 112 ∷ 115 ∷ 9 ∷ 10 ∷ 32 ∷ 9 ∷ 32 ∷ 108 ∷ 116 ∷ 111 ∷ 103 ∷ 9 ∷ 10 ∷ 32 ∷ 9 ∷ 32 ∷ 10 ∷ 13 ∷ 9
    ∷ 10 ∷ 32 ∷ 11 ∷ 13 ∷ 104 ∷ 114 ∷ 101 ∷ 115 ∷ 104 ∷ 111 ∷ 108 ∷ 100 ∷ 101 ∷ 105 ∷ 102 ∷ 97 ∷ 117
    ∷ 108 ∷ 116 ∷ 45 ∷ 118 ∷ 108 ∷ 97 ∷ 110 ∷ 45 ∷ 105 ∷ 100 ∷ 9 ∷ 32 ∷ 9 ∷ 32 ∷ 43 ∷ 48 ∷ 57 ∷ 48
    ∷ 57 ∷ 10 ∷ 48 ∷ 57 ∷ 115 ∷ 97 ∷ 98 ∷ 108 ∷ 101 ∷ 9 ∷ 10 ∷ 32 ∷ 9 ∷ 32 ∷ 101 ∷ 116 ∷ 104 ∷ 101
    ∷ 9 ∷ 32 ∷ 114 ∷ 9 ∷ 32 ∷ 49 ∷ 57 ∷ 47 ∷ 48 ∷ 57 ∷ 49 ∷ 57 ∷ 47 ∷ 48 ∷ 57 ∷ 49 ∷ 57 ∷ 9 ∷ 10
    ∷ 32 ∷ 48 ∷ 57 ∷ 9 ∷ 32 ∷ 101 ∷ 116 ∷ 111 ∷ 9 ∷ 32 ∷ 9 ∷ 32 ∷ 49 ∷ 57 ∷ 47 ∷ 48 ∷ 57 ∷ 49 ∷ 57
    ∷ 47 ∷ 48 ∷ 57 ∷ 49 ∷ 57 ∷ 9 ∷ 10 ∷ 32 ∷ 48 ∷ 57 ∷ 110 ∷ 101 ∷ 116 ∷ 9 ∷ 32 ∷ 110 ∷ 112 ∷ 108
    ∷ 116 ∷ 105 ∷ 110 ∷ 101 ∷ 9 ∷ 32 ∷ 9 ∷ 32 ∷ 112 ∷ 111 ∷ 119 ∷ 101 ∷ 114 ∷ 9 ∷ 10 ∷ 32 ∷ 9 ∷ 32
    ∷ 101 ∷ 112 ∷ 116 ∷ 104 ∷ 101 ∷ 9 ∷ 32 ∷ 114 ∷ 9 ∷ 32 ∷ 49 ∷ 57 ∷ 47 ∷ 48 ∷ 57 ∷ 49 ∷ 57 ∷ 47
    ∷ 48 ∷ 57 ∷ 49 ∷ 57 ∷ 9 ∷ 10 ∷ 32 ∷ 48 ∷ 57 ∷ 9 ∷ 32 ∷ 112 ∷ 111 ∷ 114 ∷ 119 ∷ 101 ∷ 114 ∷ 45
    ∷ 98 ∷ 108 ∷ 121 ∷ 45 ∷ 99 ∷ 108 ∷ 97 ∷ 115 ∷ 115 ∷ 9 ∷ 32 ∷ 9 ∷ 32 ∷ 48 ∷ 57 ∷ 9 ∷ 10 ∷ 32 ∷ 48
    ∷ 57 ∷ 105 ∷ 109 ∷ 105 ∷ 116 ∷ 9 ∷ 32 ∷ 9 ∷ 32 ∷ 48 ∷ 57 ∷ 9 ∷ 10 ∷ 32 ∷ 48 ∷ 57 ∷ 105 ∷ 111
    ∷ 114 ∷ 105 ∷ 116 ∷ 121 ∷ 9 ∷ 32 ∷ 9 ∷ 32 ∷ 48 ∷ 57 ∷ 9 ∷ 10 ∷ 32 ∷ 48 ∷ 57 ∷ 110 ∷ 101 ∷ 116
    ∷ 9 ∷ 32 ∷ 101 ∷ 114 ∷ 102 ∷ 97 ∷ 99 ∷ 101 ∷ 9 ∷ 32 ∷ 9 ∷ 32 ∷ 10 ∷ 13 ∷ 9 ∷ 10 ∷ 32 ∷ 11 ∷ 13
    ∷ 9 ∷ 32 ∷ 10 ∷ 13 ∷ 9 ∷ 32 ∷ 118 ∷ 9 ∷ 32 ∷ 97 ∷ 100 ∷ 109 ∷ 111 ∷ 99 ∷ 99 ∷ 101 ∷ 115 ∷ 115
    ∷ 45 ∷ 108 ∷ 105 ∷ 115 ∷ 116 ∷ 9 ∷ 32 ∷ 9 ∷ 32 ∷ 101 ∷ 115 ∷ 120 ∷ 116 ∷ 101 ∷ 110 ∷ 100 ∷ 101
    ∷ 100 ∷ 9 ∷ 32 ∷ 9 ∷ 32 ∷ 10 ∷ 13 ∷ 10 ∷ 32 ∷ 9 ∷ 13 ∷ 116 ∷ 97 ∷ 110 ∷ 100 ∷ 97 ∷ 114 ∷ 100 ∷ 9
    ∷ 32 ∷ 110 ∷ 115 ∷ 9 ∷ 32 ∷ 9 ∷ 32 ∷ 115 ∷ 101 ∷ 114 ∷ 118 ∷ 101 ∷ 114 ∷ 45 ∷ 97 ∷ 100 ∷ 100
    ∷ 114 ∷ 101 ∷ 115 ∷ 115 ∷ 9 ∷ 32 ∷ 9 ∷ 32 ∷ 46 ∷ 48 ∷ 58 ∷ 65 ∷ 70 ∷ 97 ∷ 102 ∷ 9 ∷ 10 ∷ 32 ∷ 40
    ∷ 46 ∷ 48 ∷ 58 ∷ 65 ∷ 70 ∷ 97 ∷ 102 ∷ 100 ∷ 121 ∷ 110 ∷ 97 ∷ 109 ∷ 105 ∷ 99 ∷ 41 ∷ 9 ∷ 10 ∷ 32
    ∷ 117 ∷ 108 ∷ 116 ∷ 105 ∷ 99 ∷ 97 ∷ 115 ∷ 116 ∷ 9 ∷ 32 ∷ 9 ∷ 32 ∷ 97 ∷ 100 ∷ 112 ∷ 118 ∷ 10 ∷ 13
    ∷ 9 ∷ 10 ∷ 32 ∷ 99 ∷ 11 ∷ 13 ∷ 9 ∷ 10 ∷ 32 ∷ 116 ∷ 11 ∷ 13 ∷ 9 ∷ 10 ∷ 32 ∷ 105 ∷ 11 ∷ 13 ∷ 9
    ∷ 10 ∷ 32 ∷ 118 ∷ 11 ∷ 13 ∷ 9 ∷ 10 ∷ 32 ∷ 101 ∷ 11 ∷ 13 ∷ 10 ∷ 32 ∷ 9 ∷ 13 ∷ 9 ∷ 10 ∷ 32 ∷ 105
    ∷ 11 ∷ 13 ∷ 9 ∷ 10 ∷ 32 ∷ 115 ∷ 11 ∷ 13 ∷ 9 ∷ 10 ∷ 32 ∷ 97 ∷ 11 ∷ 13 ∷ 9 ∷ 10 ∷ 32 ∷ 98 ∷ 11
    ∷ 13 ∷ 9 ∷ 10 ∷ 32 ∷ 108 ∷ 11 ∷ 13 ∷ 9 ∷ 10 ∷ 32 ∷ 101 ∷ 11 ∷ 13 ∷ 9 ∷ 10 ∷ 32 ∷ 45 ∷ 11 ∷ 13
    ∷ 9 ∷ 10 ∷ 32 ∷ 105 ∷ 11 ∷ 13 ∷ 9 ∷ 10 ∷ 32 ∷ 103 ∷ 11 ∷ 13 ∷ 9 ∷ 10 ∷ 32 ∷ 109 ∷ 11 ∷ 13 ∷ 9
    ∷ 10 ∷ 32 ∷ 112 ∷ 11 ∷ 13 ∷ 9 ∷ 10 ∷ 32 ∷ 45 ∷ 11 ∷ 13 ∷ 9 ∷ 10 ∷ 32 ∷ 115 ∷ 11 ∷ 13 ∷ 9 ∷ 10
    ∷ 32 ∷ 110 ∷ 11 ∷ 13 ∷ 9 ∷ 10 ∷ 32 ∷ 111 ∷ 11 ∷ 13 ∷ 9 ∷ 10 ∷ 32 ∷ 111 ∷ 11 ∷ 13 ∷ 9 ∷ 10 ∷ 32
    ∷ 112 ∷ 11 ∷ 13 ∷ 9 ∷ 10 ∷ 32 ∷ 97 ∷ 11 ∷ 13 ∷ 9 ∷ 10 ∷ 32 ∷ 115 ∷ 11 ∷ 13 ∷ 9 ∷ 10 ∷ 32 ∷ 115
    ∷ 11 ∷ 13 ∷ 9 ∷ 10 ∷ 32 ∷ 101 ∷ 11 ∷ 13 ∷ 9 ∷ 10 ∷ 32 ∷ 114 ∷ 11 ∷ 13 ∷ 9 ∷ 10 ∷ 32 ∷ 115 ∷ 11
    ∷ 13 ∷ 9 ∷ 10 ∷ 32 ∷ 105 ∷ 11 ∷ 13 ∷ 9 ∷ 10 ∷ 32 ∷ 111 ∷ 11 ∷ 13 ∷ 9 ∷ 10 ∷ 32 ∷ 110 ∷ 11 ∷ 13
    ∷ 9 ∷ 32 ∷ 10 ∷ 13 ∷ 115 ∷ 112 ∷ 102 ∷ 9 ∷ 32 ∷ 9 ∷ 32 ∷ 97 ∷ 10 ∷ 13 ∷ 9 ∷ 10 ∷ 32 ∷ 114 ∷ 11
    ∷ 13 ∷ 9 ∷ 10 ∷ 32 ∷ 101 ∷ 11 ∷ 13 ∷ 9 ∷ 10 ∷ 32 ∷ 97 ∷ 11 ∷ 13 ∷ 9 ∷ 32 ∷ 10 ∷ 13 ∷ 54 ∷ 9 ∷ 32
    ∷ 9 ∷ 32 ∷ 97 ∷ 100 ∷ 99 ∷ 99 ∷ 101 ∷ 115 ∷ 115 ∷ 45 ∷ 108 ∷ 105 ∷ 115 ∷ 116 ∷ 9 ∷ 32 ∷ 117
    ∷ 109 ∷ 98 ∷ 111 ∷ 10 ∷ 97 ∷ 108 ∷ 103 ∷ []

abbrev pub syntax_trans_keys_late : List ℕ
syntax_trans_keys_late =
    9 ∷ 32 ∷ 9 ∷ 32 ∷ 10 ∷ 13 ∷ 9 ∷ 10 ∷ 32 ∷ 9 ∷ 10 ∷ 32 ∷ 100 ∷ 115 ∷ 9 ∷ 10 ∷ 32 ∷ 121 ∷ 9 ∷ 10
    ∷ 32 ∷ 110 ∷ 9 ∷ 10 ∷ 32 ∷ 97 ∷ 9 ∷ 10 ∷ 32 ∷ 109 ∷ 9 ∷ 10 ∷ 32 ∷ 105 ∷ 9 ∷ 10 ∷ 32 ∷ 99 ∷ 9
    ∷ 10 ∷ 32 ∷ 9 ∷ 10 ∷ 32 ∷ 100 ∷ 105 ∷ 115 ∷ 9 ∷ 10 ∷ 32 ∷ 100 ∷ 9 ∷ 10 ∷ 32 ∷ 9 ∷ 10 ∷ 32 ∷ 100
    ∷ 115 ∷ 48 ∷ 57 ∷ 9 ∷ 10 ∷ 32 ∷ 48 ∷ 57 ∷ 9 ∷ 10 ∷ 32 ∷ 116 ∷ 9 ∷ 10 ∷ 32 ∷ 97 ∷ 9 ∷ 10 ∷ 32
    ∷ 116 ∷ 100 ∷ 112 ∷ 9 ∷ 32 ∷ 9 ∷ 32 ∷ 101 ∷ 109 ∷ 114 ∷ 110 ∷ 97 ∷ 98 ∷ 108 ∷ 101 ∷ 9 ∷ 32 ∷ 9
    ∷ 32 ∷ 112 ∷ 114 ∷ 116 ∷ 111 ∷ 114 ∷ 116 ∷ 115 ∷ 9 ∷ 32 ∷ 9 ∷ 32 ∷ 97 ∷ 101 ∷ 108 ∷ 108 ∷ 10
    ∷ 101 ∷ 99 ∷ 101 ∷ 105 ∷ 118 ∷ 101 ∷ 9 ∷ 32 ∷ 9 ∷ 32 ∷ 112 ∷ 114 ∷ 97 ∷ 110 ∷ 115 ∷ 109 ∷ 105
    ∷ 116 ∷ 101 ∷ 100 ∷ 9 ∷ 32 ∷ 9 ∷ 32 ∷ 110 ∷ 101 ∷ 116 ∷ 119 ∷ 111 ∷ 114 ∷ 107 ∷ 45 ∷ 112 ∷ 111
    ∷ 108 ∷ 105 ∷ 99 ∷ 121 ∷ 9 ∷ 32 ∷ 9 ∷ 32 ∷ 97 ∷ 112 ∷ 112 ∷ 108 ∷ 105 ∷ 99 ∷ 97 ∷ 116 ∷ 105
    ∷ 111 ∷ 110 ∷ 9 ∷ 32 ∷ 9 ∷ 32 ∷ 103 ∷ 115 ∷ 118 ∷ 117 ∷ 101 ∷ 115 ∷ 116 ∷ 45 ∷ 118 ∷ 111 ∷ 105
    ∷ 99 ∷ 101 ∷ 9 ∷ 32 ∷ 45 ∷ 9 ∷ 32 ∷ 112 ∷ 116 ∷ 117 ∷ 114 ∷ 105 ∷ 111 ∷ 114 ∷ 105 ∷ 116 ∷ 121
    ∷ 45 ∷ 116 ∷ 97 ∷ 103 ∷ 103 ∷ 101 ∷ 100 ∷ 9 ∷ 32 ∷ 9 ∷ 32 ∷ 112 ∷ 114 ∷ 105 ∷ 111 ∷ 114 ∷ 105
    ∷ 116 ∷ 121 ∷ 9 ∷ 32 ∷ 9 ∷ 32 ∷ 48 ∷ 57 ∷ 9 ∷ 32 ∷ 48 ∷ 57 ∷ 9 ∷ 32 ∷ 100 ∷ 115 ∷ 99 ∷ 112 ∷ 9
    ∷ 32 ∷ 9 ∷ 32 ∷ 48 ∷ 57 ∷ 9 ∷ 32 ∷ 48 ∷ 57 ∷ 97 ∷ 103 ∷ 103 ∷ 101 ∷ 100 ∷ 9 ∷ 32 ∷ 9 ∷ 32 ∷ 118
    ∷ 108 ∷ 97 ∷ 110 ∷ 9 ∷ 32 ∷ 9 ∷ 32 ∷ 48 ∷ 57 ∷ 9 ∷ 32 ∷ 48 ∷ 57 ∷ 110 ∷ 116 ∷ 97 ∷ 103 ∷ 103
    ∷ 101 ∷ 100 ∷ 9 ∷ 32 ∷ 115 ∷ 105 ∷ 103 ∷ 110 ∷ 97 ∷ 108 ∷ 105 ∷ 110 ∷ 103 ∷ 9 ∷ 32 ∷ 111 ∷ 116
    ∷ 102 ∷ 116 ∷ 112 ∷ 104 ∷ 111 ∷ 110 ∷ 101 ∷ 45 ∷ 118 ∷ 111 ∷ 105 ∷ 99 ∷ 101 ∷ 114 ∷ 101 ∷ 97
    ∷ 109 ∷ 105 ∷ 110 ∷ 103 ∷ 45 ∷ 118 ∷ 105 ∷ 100 ∷ 101 ∷ 111 ∷ 105 ∷ 111 ∷ 100 ∷ 101 ∷ 111 ∷ 45
    ∷ 99 ∷ 115 ∷ 111 ∷ 110 ∷ 102 ∷ 101 ∷ 114 ∷ 101 ∷ 110 ∷ 99 ∷ 117 ∷ 110 ∷ 97 ∷ 117 ∷ 99 ∷ 9 ∷ 32
    ∷ 9 ∷ 32 ∷ 97 ∷ 99 ∷ 99 ∷ 101 ∷ 115 ∷ 115 ∷ 45 ∷ 108 ∷ 105 ∷ 115 ∷ 116 ∷ 9 ∷ 32 ∷ 108 ∷ 116
    ∷ 105 ∷ 99 ∷ 97 ∷ 115 ∷ 116 ∷ 9 ∷ 32 ∷ 9 ∷ 32 ∷ 97 ∷ 100 ∷ 108 ∷ 112 ∷ 118 ∷ 10 ∷ 13 ∷ 9 ∷ 10
    ∷ 32 ∷ 105 ∷ 11 ∷ 13 ∷ 9 ∷ 10 ∷ 32 ∷ 109 ∷ 11 ∷ 13 ∷ 9 ∷ 10 ∷ 32 ∷ 105 ∷ 11 ∷ 13 ∷ 9 ∷ 10 ∷ 32
    ∷ 116 ∷ 11 ∷ 13 ∷ 9 ∷ 32 ∷ 10 ∷ 13 ∷ 111 ∷ 9 ∷ 32 ∷ 9 ∷ 32 ∷ 105 ∷ 108 ∷ 115 ∷ 110 ∷ 108 ∷ 105
    ∷ 110 ∷ 101 ∷ 9 ∷ 32 ∷ 9 ∷ 32 ∷ 112 ∷ 111 ∷ 119 ∷ 101 ∷ 114 ∷ 9 ∷ 10 ∷ 32 ∷ 9 ∷ 32 ∷ 101 ∷ 116
    ∷ 104 ∷ 101 ∷ 9 ∷ 32 ∷ 114 ∷ 9 ∷ 32 ∷ 49 ∷ 57 ∷ 47 ∷ 48 ∷ 57 ∷ 49 ∷ 57 ∷ 47 ∷ 48 ∷ 57 ∷ 49 ∷ 57
    ∷ 10 ∷ 48 ∷ 57 ∷ 110 ∷ 101 ∷ 116 ∷ 9 ∷ 32 ∷ 108 ∷ 100 ∷ 112 ∷ 9 ∷ 32 ∷ 9 ∷ 32 ∷ 101 ∷ 114 ∷ 112
    ∷ 116 ∷ 97 ∷ 110 ∷ 110 ∷ 105 ∷ 110 ∷ 103 ∷ 45 ∷ 116 ∷ 114 ∷ 101 ∷ 101 ∷ 9 ∷ 32 ∷ 9 ∷ 32 ∷ 56
    ∷ 114 ∷ 48 ∷ 50 ∷ 45 ∷ 49 ∷ 119 ∷ 9 ∷ 32 ∷ 9 ∷ 32 ∷ 97 ∷ 100 ∷ 109 ∷ 105 ∷ 110 ∷ 45 ∷ 101 ∷ 100
    ∷ 103 ∷ 101 ∷ 45 ∷ 112 ∷ 111 ∷ 114 ∷ 116 ∷ 111 ∷ 111 ∷ 116 ∷ 45 ∷ 112 ∷ 114 ∷ 111 ∷ 116 ∷ 101
    ∷ 99 ∷ 112 ∷ 45 ∷ 98 ∷ 112 ∷ 100 ∷ 117 ∷ 45 ∷ 103 ∷ 117 ∷ 97 ∷ 114 ∷ 100 ∷ 111 ∷ 114 ∷ 114 ∷ 116
    ∷ 45 ∷ 115 ∷ 110 ∷ 97 ∷ 109 ∷ 101 ∷ 9 ∷ 32 ∷ 9 ∷ 10 ∷ 32 ∷ 10 ∷ 9 ∷ 10 ∷ 32 ∷ 9 ∷ 32 ∷ 111 ∷ 116
    ∷ 101 ∷ 99 ∷ 116 ∷ 101 ∷ 100 ∷ 111 ∷ 117 ∷ 116 ∷ 101 ∷ 114 ∷ 9 ∷ 32 ∷ 9 ∷ 32 ∷ 111 ∷ 115 ∷ 112
    ∷ 102 ∷ 9 ∷ 10 ∷ 32 ∷ 9 ∷ 32 ∷ 118 ∷ 114 ∷ 102 ∷ 9 ∷ 32 ∷ 112 ∷ 116 ∷ 121 ∷ 97 ∷ 110 ∷ 110 ∷ 105
    ∷ 110 ∷ 103 ∷ 45 ∷ 116 ∷ 114 ∷ 101 ∷ 101 ∷ 9 ∷ 10 ∷ 32 ∷ 9 ∷ 32 ∷ 56 ∷ 112 ∷ 114 ∷ 48 ∷ 50 ∷ 45
    ∷ 49 ∷ 119 ∷ 9 ∷ 10 ∷ 32 ∷ 9 ∷ 32 ∷ 97 ∷ 112 ∷ 114 ∷ 105 ∷ 111 ∷ 114 ∷ 105 ∷ 116 ∷ 121 ∷ 9 ∷ 32
    ∷ 9 ∷ 32 ∷ 43 ∷ 48 ∷ 57 ∷ 48 ∷ 57 ∷ 10 ∷ 48 ∷ 57 ∷ 109 ∷ 109 ∷ 101 ∷ 116 ∷ 114 ∷ 105 ∷ 99 ∷ 97
    ∷ 108 ∷ 45 ∷ 102 ∷ 108 ∷ 111 ∷ 119 ∷ 45 ∷ 99 ∷ 111 ∷ 110 ∷ 116 ∷ 114 ∷ 111 ∷ 108 ∷ 9 ∷ 32 ∷ 114
    ∷ 117 ∷ 115 ∷ 116 ∷ 9 ∷ 32 ∷ 9 ∷ 32 ∷ 100 ∷ 115 ∷ 99 ∷ 112 ∷ 110 ∷ 107 ∷ 110 ∷ 111 ∷ 119 ∷ 110
    ∷ 45 ∷ 117 ∷ 110 ∷ 105 ∷ 108 ∷ 111 ∷ 114 ∷ 97 ∷ 110 ∷ 9 ∷ 32 ∷ 9 ∷ 32 ∷ 43 ∷ 48 ∷ 57 ∷ 48 ∷ 57
    ∷ 9 ∷ 10 ∷ 32 ∷ 48 ∷ 57 ∷ 105 ∷ 99 ∷ 101 ∷ 45 ∷ 118 ∷ 108 ∷ 97 ∷ 110 ∷ 9 ∷ 32 ∷ 9 ∷ 32 ∷ 49 ∷ 57
    ∷ 102 ∷ 9 ∷ 32 ∷ 9 ∷ 32 ∷ 102 ∷ 111 ∷ 114 ∷ 119 ∷ 97 ∷ 114 ∷ 100 ∷ 105 ∷ 110 ∷ 103 ∷ []

abbrev pub syntax_trans_keys : List ℕ
syntax_trans_keys = syntax_trans_keys_early ++ syntax_trans_keys_late
