-- ===== src/Config/Route/States.antt =====
-- internal/config/route_parser.go: the tables that a state indexes, of the machine `route`.
use fastiron_tofu.Prelude.{ℕ, List, [], ◌∷◌}

abbrev pub route_key_offsets : List ℕ
route_key_offsets =
    0 ∷ 0 ∷ 1 ∷ 2 ∷ 4 ∷ 7 ∷ 8 ∷ 9 ∷ 10 ∷ 11 ∷ 13 ∷ 18 ∷ 21 ∷ 23 ∷ 26 ∷ 28 ∷ 31 ∷ 33 ∷ 38 ∷ 42 ∷ 45
    ∷ 47 ∷ 50 ∷ 52 ∷ 55 ∷ 57 ∷ 61 ∷ 71 ∷ 74 ∷ 76 ∷ 79 ∷ 81 ∷ 84 ∷ 86 ∷ 91 ∷ 99 ∷ 104 ∷ 110 ∷ 111
    ∷ 112 ∷ 115 ∷ 120 ∷ 121 ∷ 122 ∷ 123 ∷ 124 ∷ 125 ∷ 126 ∷ 127 ∷ 129 ∷ 133 ∷ 138 ∷ 142 ∷ 143 ∷ 144
    ∷ 145 ∷ 147 ∷ 152 ∷ 158 ∷ 161 ∷ 162 ∷ 163 ∷ 165 ∷ 169 ∷ 172 ∷ 174 ∷ 177 ∷ 178 ∷ 179 ∷ 181 ∷ 185
    ∷ 190 ∷ 193 ∷ 194 ∷ 195 ∷ 196 ∷ 198 ∷ 203 ∷ 208 ∷ 210 ∷ 211 ∷ 212 ∷ 213 ∷ 214 ∷ 215 ∷ 216 ∷ 217
    ∷ 218 ∷ 219 ∷ 220 ∷ 221 ∷ 223 ∷ 227 ∷ 228 ∷ 229 ∷ 230 ∷ 231 ∷ 232 ∷ 233 ∷ 234 ∷ 236 ∷ 240 ∷ 245
    ∷ 252 ∷ 257 ∷ 258 ∷ 259 ∷ 261 ∷ 262 ∷ 263 ∷ 264 ∷ 265 ∷ 266 ∷ 267 ∷ 268 ∷ 269 ∷ 270 ∷ 271 ∷ 273
    ∷ 277 ∷ 281 ∷ 282 ∷ 283 ∷ 284 ∷ 287 ∷ 288 ∷ 289 ∷ 290 ∷ 291 ∷ 292 ∷ 293 ∷ 295 ∷ 299 ∷ 300 ∷ 301
    ∷ 303 ∷ 307 ∷ 311 ∷ 312 ∷ 313 ∷ []

abbrev pub route_single_lengths : List ℕ
route_single_lengths =
    0 ∷ 1 ∷ 1 ∷ 2 ∷ 3 ∷ 1 ∷ 1 ∷ 1 ∷ 1 ∷ 2 ∷ 3 ∷ 1 ∷ 0 ∷ 1 ∷ 0 ∷ 1 ∷ 0 ∷ 3 ∷ 2 ∷ 1 ∷ 0 ∷ 1 ∷ 0 ∷ 1
    ∷ 0 ∷ 2 ∷ 8 ∷ 1 ∷ 0 ∷ 1 ∷ 0 ∷ 1 ∷ 0 ∷ 3 ∷ 6 ∷ 3 ∷ 6 ∷ 1 ∷ 1 ∷ 3 ∷ 5 ∷ 1 ∷ 1 ∷ 1 ∷ 1 ∷ 1 ∷ 1 ∷ 1
    ∷ 2 ∷ 2 ∷ 3 ∷ 4 ∷ 1 ∷ 1 ∷ 1 ∷ 2 ∷ 3 ∷ 4 ∷ 3 ∷ 1 ∷ 1 ∷ 2 ∷ 2 ∷ 1 ∷ 2 ∷ 3 ∷ 1 ∷ 1 ∷ 2 ∷ 2 ∷ 3 ∷ 3
    ∷ 1 ∷ 1 ∷ 1 ∷ 2 ∷ 3 ∷ 3 ∷ 2 ∷ 1 ∷ 1 ∷ 1 ∷ 1 ∷ 1 ∷ 1 ∷ 1 ∷ 1 ∷ 1 ∷ 1 ∷ 1 ∷ 2 ∷ 2 ∷ 1 ∷ 1 ∷ 1 ∷ 1
    ∷ 1 ∷ 1 ∷ 1 ∷ 2 ∷ 2 ∷ 3 ∷ 5 ∷ 3 ∷ 1 ∷ 1 ∷ 2 ∷ 1 ∷ 1 ∷ 1 ∷ 1 ∷ 1 ∷ 1 ∷ 1 ∷ 1 ∷ 1 ∷ 1 ∷ 2 ∷ 2 ∷ 2
    ∷ 1 ∷ 1 ∷ 1 ∷ 3 ∷ 1 ∷ 1 ∷ 1 ∷ 1 ∷ 1 ∷ 1 ∷ 0 ∷ 2 ∷ 1 ∷ 1 ∷ 2 ∷ 2 ∷ 2 ∷ 1 ∷ 1 ∷ 0 ∷ []

abbrev pub route_range_lengths : List ℕ
route_range_lengths =
    0 ∷ 0 ∷ 0 ∷ 0 ∷ 0 ∷ 0 ∷ 0 ∷ 0 ∷ 0 ∷ 0 ∷ 1 ∷ 1 ∷ 1 ∷ 1 ∷ 1 ∷ 1 ∷ 1 ∷ 1 ∷ 1 ∷ 1 ∷ 1 ∷ 1 ∷ 1 ∷ 1
    ∷ 1 ∷ 1 ∷ 1 ∷ 1 ∷ 1 ∷ 1 ∷ 1 ∷ 1 ∷ 1 ∷ 1 ∷ 1 ∷ 1 ∷ 0 ∷ 0 ∷ 0 ∷ 0 ∷ 0 ∷ 0 ∷ 0 ∷ 0 ∷ 0 ∷ 0 ∷ 0 ∷ 0
    ∷ 0 ∷ 1 ∷ 1 ∷ 0 ∷ 0 ∷ 0 ∷ 0 ∷ 0 ∷ 1 ∷ 1 ∷ 0 ∷ 0 ∷ 0 ∷ 0 ∷ 1 ∷ 1 ∷ 0 ∷ 0 ∷ 0 ∷ 0 ∷ 0 ∷ 1 ∷ 1 ∷ 0
    ∷ 0 ∷ 0 ∷ 0 ∷ 0 ∷ 1 ∷ 1 ∷ 0 ∷ 0 ∷ 0 ∷ 0 ∷ 0 ∷ 0 ∷ 0 ∷ 0 ∷ 0 ∷ 0 ∷ 0 ∷ 0 ∷ 0 ∷ 1 ∷ 0 ∷ 0 ∷ 0 ∷ 0
    ∷ 0 ∷ 0 ∷ 0 ∷ 0 ∷ 1 ∷ 1 ∷ 1 ∷ 1 ∷ 0 ∷ 0 ∷ 0 ∷ 0 ∷ 0 ∷ 0 ∷ 0 ∷ 0 ∷ 0 ∷ 0 ∷ 0 ∷ 0 ∷ 0 ∷ 0 ∷ 1 ∷ 1
    ∷ 0 ∷ 0 ∷ 0 ∷ 0 ∷ 0 ∷ 0 ∷ 0 ∷ 0 ∷ 0 ∷ 0 ∷ 1 ∷ 1 ∷ 0 ∷ 0 ∷ 0 ∷ 1 ∷ 1 ∷ 0 ∷ 0 ∷ 0 ∷ []

abbrev pub route_index_offsets : List ℕ
route_index_offsets =
    0 ∷ 0 ∷ 2 ∷ 4 ∷ 7 ∷ 11 ∷ 13 ∷ 15 ∷ 17 ∷ 19 ∷ 22 ∷ 27 ∷ 30 ∷ 32 ∷ 35 ∷ 37 ∷ 40 ∷ 42 ∷ 47 ∷ 51
    ∷ 54 ∷ 56 ∷ 59 ∷ 61 ∷ 64 ∷ 66 ∷ 70 ∷ 80 ∷ 83 ∷ 85 ∷ 88 ∷ 90 ∷ 93 ∷ 95 ∷ 100 ∷ 108 ∷ 113 ∷ 120
    ∷ 122 ∷ 124 ∷ 128 ∷ 134 ∷ 136 ∷ 138 ∷ 140 ∷ 142 ∷ 144 ∷ 146 ∷ 148 ∷ 151 ∷ 155 ∷ 160 ∷ 165 ∷ 167
    ∷ 169 ∷ 171 ∷ 174 ∷ 179 ∷ 185 ∷ 189 ∷ 191 ∷ 193 ∷ 196 ∷ 200 ∷ 203 ∷ 206 ∷ 210 ∷ 212 ∷ 214 ∷ 217
    ∷ 221 ∷ 226 ∷ 230 ∷ 232 ∷ 234 ∷ 236 ∷ 239 ∷ 244 ∷ 249 ∷ 252 ∷ 254 ∷ 256 ∷ 258 ∷ 260 ∷ 262 ∷ 264
    ∷ 266 ∷ 268 ∷ 270 ∷ 272 ∷ 274 ∷ 277 ∷ 281 ∷ 283 ∷ 285 ∷ 287 ∷ 289 ∷ 291 ∷ 293 ∷ 295 ∷ 298 ∷ 302
    ∷ 307 ∷ 314 ∷ 319 ∷ 321 ∷ 323 ∷ 326 ∷ 328 ∷ 330 ∷ 332 ∷ 334 ∷ 336 ∷ 338 ∷ 340 ∷ 342 ∷ 344 ∷ 346
    ∷ 349 ∷ 353 ∷ 357 ∷ 359 ∷ 361 ∷ 363 ∷ 367 ∷ 369 ∷ 371 ∷ 373 ∷ 375 ∷ 377 ∷ 379 ∷ 381 ∷ 385 ∷ 387
    ∷ 389 ∷ 392 ∷ 396 ∷ 400 ∷ 402 ∷ 404 ∷ []
