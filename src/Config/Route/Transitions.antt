-- ===== src/Config/Route/Transitions.antt =====
-- internal/config/route_parser.go: the transitions of the machine `route`.
use fastiron_tofu.Prelude.{ℕ, List, [], ◌∷◌}

abbrev pub route_indicies : List ℕ
route_indicies =
    0 ∷ 1 ∷ 2 ∷ 1 ∷ 3 ∷ 3 ∷ 1 ∷ 3 ∷ 3 ∷ 4 ∷ 1 ∷ 5 ∷ 1 ∷ 6 ∷ 1 ∷ 7 ∷ 1 ∷ 8 ∷ 1 ∷ 9 ∷ 9 ∷ 1 ∷ 9 ∷ 9
    ∷ 11 ∷ 10 ∷ 1 ∷ 12 ∷ 13 ∷ 1 ∷ 14 ∷ 1 ∷ 15 ∷ 14 ∷ 1 ∷ 16 ∷ 1 ∷ 17 ∷ 16 ∷ 1 ∷ 18 ∷ 1 ∷ 19 ∷ 19
    ∷ 20 ∷ 18 ∷ 1 ∷ 21 ∷ 21 ∷ 22 ∷ 1 ∷ 23 ∷ 24 ∷ 1 ∷ 25 ∷ 1 ∷ 26 ∷ 25 ∷ 1 ∷ 27 ∷ 1 ∷ 28 ∷ 27 ∷ 1
    ∷ 29 ∷ 1 ∷ 30 ∷ 30 ∷ 29 ∷ 1 ∷ 31 ∷ 31 ∷ 33 ∷ 34 ∷ 35 ∷ 36 ∷ 37 ∷ 38 ∷ 32 ∷ 1 ∷ 39 ∷ 40 ∷ 1 ∷ 41
    ∷ 1 ∷ 42 ∷ 41 ∷ 1 ∷ 43 ∷ 1 ∷ 44 ∷ 43 ∷ 1 ∷ 45 ∷ 1 ∷ 46 ∷ 47 ∷ 46 ∷ 45 ∷ 1 ∷ 48 ∷ 48 ∷ 50 ∷ 51
    ∷ 52 ∷ 53 ∷ 49 ∷ 1 ∷ 54 ∷ 55 ∷ 54 ∷ 56 ∷ 1 ∷ 57 ∷ 57 ∷ 50 ∷ 51 ∷ 52 ∷ 53 ∷ 1 ∷ 58 ∷ 1 ∷ 59 ∷ 1
    ∷ 60 ∷ 61 ∷ 60 ∷ 1 ∷ 62 ∷ 62 ∷ 51 ∷ 52 ∷ 53 ∷ 1 ∷ 63 ∷ 1 ∷ 64 ∷ 1 ∷ 65 ∷ 1 ∷ 66 ∷ 1 ∷ 67 ∷ 1
    ∷ 68 ∷ 1 ∷ 69 ∷ 1 ∷ 70 ∷ 70 ∷ 1 ∷ 70 ∷ 70 ∷ 71 ∷ 1 ∷ 72 ∷ 73 ∷ 72 ∷ 74 ∷ 1 ∷ 75 ∷ 75 ∷ 52 ∷ 53
    ∷ 1 ∷ 76 ∷ 1 ∷ 77 ∷ 1 ∷ 78 ∷ 1 ∷ 79 ∷ 79 ∷ 1 ∷ 79 ∷ 79 ∷ 81 ∷ 1 ∷ 80 ∷ 82 ∷ 61 ∷ 82 ∷ 1 ∷ 1 ∷ 80
    ∷ 83 ∷ 83 ∷ 84 ∷ 1 ∷ 85 ∷ 1 ∷ 86 ∷ 1 ∷ 87 ∷ 87 ∷ 1 ∷ 87 ∷ 87 ∷ 88 ∷ 1 ∷ 89 ∷ 90 ∷ 1 ∷ 1 ∷ 91
    ∷ 81 ∷ 82 ∷ 61 ∷ 82 ∷ 1 ∷ 92 ∷ 1 ∷ 93 ∷ 1 ∷ 94 ∷ 94 ∷ 1 ∷ 94 ∷ 94 ∷ 95 ∷ 1 ∷ 96 ∷ 89 ∷ 96 ∷ 97
    ∷ 1 ∷ 98 ∷ 98 ∷ 99 ∷ 1 ∷ 100 ∷ 1 ∷ 101 ∷ 1 ∷ 102 ∷ 1 ∷ 103 ∷ 103 ∷ 1 ∷ 103 ∷ 103 ∷ 105 ∷ 1 ∷ 104
    ∷ 61 ∷ 1 ∷ 1 ∷ 1 ∷ 104 ∷ 1 ∷ 106 ∷ 105 ∷ 61 ∷ 1 ∷ 107 ∷ 1 ∷ 108 ∷ 1 ∷ 109 ∷ 1 ∷ 110 ∷ 1 ∷ 111
    ∷ 1 ∷ 112 ∷ 1 ∷ 113 ∷ 1 ∷ 114 ∷ 1 ∷ 115 ∷ 1 ∷ 116 ∷ 1 ∷ 117 ∷ 117 ∷ 1 ∷ 117 ∷ 117 ∷ 118 ∷ 1
    ∷ 119 ∷ 1 ∷ 120 ∷ 1 ∷ 121 ∷ 1 ∷ 122 ∷ 1 ∷ 123 ∷ 1 ∷ 124 ∷ 1 ∷ 125 ∷ 1 ∷ 126 ∷ 126 ∷ 1 ∷ 126
    ∷ 126 ∷ 1 ∷ 127 ∷ 128 ∷ 129 ∷ 128 ∷ 1 ∷ 127 ∷ 130 ∷ 130 ∷ 51 ∷ 52 ∷ 53 ∷ 131 ∷ 1 ∷ 132 ∷ 133
    ∷ 132 ∷ 134 ∷ 1 ∷ 135 ∷ 1 ∷ 125 ∷ 1 ∷ 136 ∷ 137 ∷ 1 ∷ 138 ∷ 1 ∷ 139 ∷ 1 ∷ 140 ∷ 1 ∷ 141 ∷ 1
    ∷ 142 ∷ 1 ∷ 143 ∷ 1 ∷ 144 ∷ 1 ∷ 145 ∷ 1 ∷ 146 ∷ 1 ∷ 147 ∷ 1 ∷ 148 ∷ 148 ∷ 1 ∷ 148 ∷ 148 ∷ 1
    ∷ 149 ∷ 117 ∷ 117 ∷ 1 ∷ 149 ∷ 150 ∷ 1 ∷ 151 ∷ 1 ∷ 152 ∷ 1 ∷ 153 ∷ 129 ∷ 153 ∷ 1 ∷ 154 ∷ 1 ∷ 155
    ∷ 1 ∷ 156 ∷ 1 ∷ 157 ∷ 1 ∷ 125 ∷ 1 ∷ 125 ∷ 1 ∷ 158 ∷ 1 ∷ 159 ∷ 159 ∷ 158 ∷ 1 ∷ 160 ∷ 1 ∷ 161 ∷ 1
    ∷ 162 ∷ 162 ∷ 1 ∷ 162 ∷ 162 ∷ 1 ∷ 163 ∷ 164 ∷ 164 ∷ 1 ∷ 163 ∷ 1 ∷ 165 ∷ 166 ∷ 165 ∷ 1 ∷ []

abbrev pub route_trans_targs : List ℕ
route_trans_targs =
    2 ∷ 0 ∷ 3 ∷ 4 ∷ 5 ∷ 6 ∷ 7 ∷ 8 ∷ 9 ∷ 10 ∷ 11 ∷ 132 ∷ 12 ∷ 11 ∷ 13 ∷ 14 ∷ 15 ∷ 16 ∷ 17 ∷ 18 ∷ 130
    ∷ 18 ∷ 19 ∷ 20 ∷ 19 ∷ 21 ∷ 22 ∷ 23 ∷ 24 ∷ 25 ∷ 26 ∷ 26 ∷ 27 ∷ 80 ∷ 92 ∷ 104 ∷ 106 ∷ 124 ∷ 129
    ∷ 28 ∷ 27 ∷ 29 ∷ 30 ∷ 31 ∷ 32 ∷ 33 ∷ 34 ∷ 139 ∷ 34 ∷ 35 ∷ 37 ∷ 41 ∷ 52 ∷ 66 ∷ 36 ∷ 139 ∷ 35 ∷ 36
    ∷ 38 ∷ 39 ∷ 40 ∷ 139 ∷ 40 ∷ 42 ∷ 43 ∷ 44 ∷ 45 ∷ 46 ∷ 47 ∷ 48 ∷ 49 ∷ 50 ∷ 51 ∷ 139 ∷ 50 ∷ 51 ∷ 53
    ∷ 54 ∷ 55 ∷ 56 ∷ 57 ∷ 64 ∷ 58 ∷ 58 ∷ 59 ∷ 60 ∷ 61 ∷ 62 ∷ 63 ∷ 139 ∷ 63 ∷ 65 ∷ 67 ∷ 68 ∷ 69 ∷ 70
    ∷ 71 ∷ 70 ∷ 71 ∷ 72 ∷ 73 ∷ 74 ∷ 75 ∷ 76 ∷ 77 ∷ 78 ∷ 79 ∷ 81 ∷ 82 ∷ 83 ∷ 84 ∷ 85 ∷ 86 ∷ 87 ∷ 88
    ∷ 89 ∷ 90 ∷ 91 ∷ 27 ∷ 93 ∷ 94 ∷ 95 ∷ 96 ∷ 97 ∷ 98 ∷ 99 ∷ 100 ∷ 101 ∷ 102 ∷ 139 ∷ 102 ∷ 103 ∷ 40
    ∷ 139 ∷ 103 ∷ 105 ∷ 107 ∷ 120 ∷ 108 ∷ 109 ∷ 110 ∷ 111 ∷ 112 ∷ 113 ∷ 114 ∷ 115 ∷ 116 ∷ 117 ∷ 118
    ∷ 119 ∷ 121 ∷ 122 ∷ 123 ∷ 40 ∷ 125 ∷ 126 ∷ 127 ∷ 128 ∷ 131 ∷ 26 ∷ 133 ∷ 134 ∷ 135 ∷ 136 ∷ 137
    ∷ 138 ∷ 139 ∷ []

abbrev pub route_trans_actions : List ℕ
route_trans_actions =
    0 ∷ 0 ∷ 0 ∷ 0 ∷ 0 ∷ 0 ∷ 0 ∷ 0 ∷ 0 ∷ 0 ∷ 1 ∷ 0 ∷ 0 ∷ 0 ∷ 0 ∷ 0 ∷ 0 ∷ 0 ∷ 0 ∷ 3 ∷ 0 ∷ 0 ∷ 1 ∷ 0
    ∷ 0 ∷ 0 ∷ 0 ∷ 0 ∷ 0 ∷ 0 ∷ 5 ∷ 0 ∷ 1 ∷ 0 ∷ 0 ∷ 0 ∷ 0 ∷ 0 ∷ 0 ∷ 0 ∷ 0 ∷ 0 ∷ 0 ∷ 0 ∷ 0 ∷ 0 ∷ 7 ∷ 7
    ∷ 0 ∷ 1 ∷ 0 ∷ 0 ∷ 0 ∷ 0 ∷ 20 ∷ 20 ∷ 0 ∷ 0 ∷ 0 ∷ 0 ∷ 9 ∷ 9 ∷ 0 ∷ 0 ∷ 0 ∷ 0 ∷ 0 ∷ 0 ∷ 0 ∷ 0 ∷ 0
    ∷ 1 ∷ 11 ∷ 11 ∷ 0 ∷ 0 ∷ 0 ∷ 0 ∷ 0 ∷ 0 ∷ 0 ∷ 0 ∷ 9 ∷ 0 ∷ 0 ∷ 0 ∷ 0 ∷ 0 ∷ 1 ∷ 23 ∷ 0 ∷ 0 ∷ 0 ∷ 0
    ∷ 0 ∷ 1 ∷ 23 ∷ 0 ∷ 0 ∷ 0 ∷ 0 ∷ 0 ∷ 0 ∷ 0 ∷ 0 ∷ 0 ∷ 0 ∷ 0 ∷ 0 ∷ 0 ∷ 0 ∷ 0 ∷ 0 ∷ 0 ∷ 0 ∷ 0 ∷ 0 ∷ 0
    ∷ 17 ∷ 0 ∷ 0 ∷ 0 ∷ 0 ∷ 0 ∷ 0 ∷ 0 ∷ 0 ∷ 0 ∷ 13 ∷ 13 ∷ 0 ∷ 1 ∷ 26 ∷ 26 ∷ 0 ∷ 0 ∷ 0 ∷ 0 ∷ 0 ∷ 0 ∷ 0
    ∷ 0 ∷ 0 ∷ 0 ∷ 0 ∷ 0 ∷ 0 ∷ 0 ∷ 0 ∷ 0 ∷ 0 ∷ 0 ∷ 0 ∷ 13 ∷ 0 ∷ 0 ∷ 0 ∷ 0 ∷ 0 ∷ 3 ∷ 0 ∷ 0 ∷ 0 ∷ 0 ∷ 0
    ∷ 0 ∷ 15 ∷ []
