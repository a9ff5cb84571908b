-- ===== src/Config/Route/Keys.antt =====
-- internal/config/route_parser.go: the actions and the keys of the machine `route`.
use fastiron_tofu.Prelude.{ℕ, List, [], ◌∷◌}

abbrev pub route_actions : List ℕ
route_actions =
    0 ∷ 1 ∷ 0 ∷ 1 ∷ 1 ∷ 1 ∷ 2 ∷ 1 ∷ 3 ∷ 1 ∷ 4 ∷ 1 ∷ 5 ∷ 1 ∷ 8 ∷ 1 ∷ 9 ∷ 2 ∷ 4 ∷ 0 ∷ 2 ∷ 4 ∷ 6 ∷ 2
    ∷ 4 ∷ 7 ∷ 3 ∷ 4 ∷ 6 ∷ 8 ∷ []

abbrev pub route_trans_keys : List ℕ
route_trans_keys =
    105 ∷ 112 ∷ 9 ∷ 32 ∷ 9 ∷ 32 ∷ 114 ∷ 111 ∷ 117 ∷ 116 ∷ 101 ∷ 9 ∷ 32 ∷ 9 ∷ 32 ∷ 118 ∷ 48 ∷ 57 ∷ 46
    ∷ 48 ∷ 57 ∷ 48 ∷ 57 ∷ 46 ∷ 48 ∷ 57 ∷ 48 ∷ 57 ∷ 46 ∷ 48 ∷ 57 ∷ 48 ∷ 57 ∷ 9 ∷ 32 ∷ 47 ∷ 48 ∷ 57
    ∷ 9 ∷ 32 ∷ 48 ∷ 57 ∷ 46 ∷ 48 ∷ 57 ∷ 48 ∷ 57 ∷ 46 ∷ 48 ∷ 57 ∷ 48 ∷ 57 ∷ 46 ∷ 48 ∷ 57 ∷ 48 ∷ 57
    ∷ 9 ∷ 32 ∷ 48 ∷ 57 ∷ 9 ∷ 32 ∷ 100 ∷ 101 ∷ 108 ∷ 110 ∷ 116 ∷ 118 ∷ 48 ∷ 57 ∷ 46 ∷ 48 ∷ 57 ∷ 48
    ∷ 57 ∷ 46 ∷ 48 ∷ 57 ∷ 48 ∷ 57 ∷ 46 ∷ 48 ∷ 57 ∷ 48 ∷ 57 ∷ 9 ∷ 10 ∷ 32 ∷ 48 ∷ 57 ∷ 9 ∷ 32 ∷ 98
    ∷ 100 ∷ 110 ∷ 116 ∷ 48 ∷ 57 ∷ 9 ∷ 10 ∷ 32 ∷ 48 ∷ 57 ∷ 9 ∷ 32 ∷ 98 ∷ 100 ∷ 110 ∷ 116 ∷ 102 ∷ 100
    ∷ 9 ∷ 10 ∷ 32 ∷ 9 ∷ 32 ∷ 100 ∷ 110 ∷ 116 ∷ 105 ∷ 115 ∷ 116 ∷ 97 ∷ 110 ∷ 99 ∷ 101 ∷ 9 ∷ 32 ∷ 9
    ∷ 32 ∷ 48 ∷ 57 ∷ 9 ∷ 10 ∷ 32 ∷ 48 ∷ 57 ∷ 9 ∷ 32 ∷ 110 ∷ 116 ∷ 97 ∷ 109 ∷ 101 ∷ 9 ∷ 32 ∷ 9 ∷ 32
    ∷ 34 ∷ 10 ∷ 13 ∷ 9 ∷ 10 ∷ 32 ∷ 34 ∷ 11 ∷ 13 ∷ 9 ∷ 32 ∷ 116 ∷ 97 ∷ 103 ∷ 9 ∷ 32 ∷ 9 ∷ 32 ∷ 48
    ∷ 57 ∷ 10 ∷ 48 ∷ 57 ∷ 10 ∷ 34 ∷ 9 ∷ 10 ∷ 32 ∷ 97 ∷ 103 ∷ 9 ∷ 32 ∷ 9 ∷ 32 ∷ 48 ∷ 57 ∷ 9 ∷ 10 ∷ 32
    ∷ 48 ∷ 57 ∷ 9 ∷ 32 ∷ 110 ∷ 97 ∷ 109 ∷ 101 ∷ 9 ∷ 32 ∷ 9 ∷ 32 ∷ 34 ∷ 10 ∷ 13 ∷ 10 ∷ 32 ∷ 34 ∷ 9
    ∷ 13 ∷ 10 ∷ 34 ∷ 10 ∷ 101 ∷ 102 ∷ 97 ∷ 117 ∷ 108 ∷ 116 ∷ 45 ∷ 118 ∷ 114 ∷ 102 ∷ 9 ∷ 32 ∷ 9 ∷ 32
    ∷ 48 ∷ 57 ∷ 116 ∷ 104 ∷ 101 ∷ 114 ∷ 110 ∷ 101 ∷ 116 ∷ 9 ∷ 32 ∷ 9 ∷ 32 ∷ 10 ∷ 13 ∷ 9 ∷ 10 ∷ 32
    ∷ 11 ∷ 13 ∷ 9 ∷ 32 ∷ 100 ∷ 110 ∷ 116 ∷ 48 ∷ 57 ∷ 9 ∷ 10 ∷ 32 ∷ 48 ∷ 57 ∷ 97 ∷ 103 ∷ 101 ∷ 117
    ∷ 120 ∷ 116 ∷ 45 ∷ 104 ∷ 111 ∷ 112 ∷ 45 ∷ 118 ∷ 114 ∷ 102 ∷ 9 ∷ 32 ∷ 9 ∷ 32 ∷ 10 ∷ 13 ∷ 9 ∷ 32
    ∷ 10 ∷ 13 ∷ 108 ∷ 108 ∷ 48 ∷ 9 ∷ 10 ∷ 32 ∷ 117 ∷ 110 ∷ 110 ∷ 101 ∷ 108 ∷ 101 ∷ 48 ∷ 57 ∷ 9 ∷ 32
    ∷ 48 ∷ 57 ∷ 114 ∷ 102 ∷ 9 ∷ 32 ∷ 9 ∷ 32 ∷ 10 ∷ 13 ∷ 9 ∷ 32 ∷ 10 ∷ 13 ∷ 10 ∷ 10 ∷ []
