-- ===== src/Config/Syntax/Targets.antt =====
-- internal/config/command_parser.go: the targets of the transitions of the machine `syntax`.
use fastiron_tofu.Prelude.{ℕ, List, [], ◌∷◌, ◌++◌}

abbrev pub syntax_trans_targs_early : List ℕ
syntax_trans_targs_early =
    2 ∷ 16 ∷ 53 ∷ 101 ∷ 298 ∷ 303 ∷ 509 ∷ 538 ∷ 630 ∷ 650 ∷ 665 ∷ 720 ∷ 729 ∷ 739 ∷ 0 ∷ 3 ∷ 0 ∷ 4
    ∷ 0 ∷ 5 ∷ 0 ∷ 6 ∷ 6 ∷ 0 ∷ 6 ∷ 6 ∷ 7 ∷ 0 ∷ 8 ∷ 768 ∷ 8 ∷ 10 ∷ 7 ∷ 0 ∷ 8 ∷ 8 ∷ 0 ∷ 9 ∷ 8 ∷ 768 ∷ 8
    ∷ 0 ∷ 9 ∷ 11 ∷ 0 ∷ 12 ∷ 11 ∷ 0 ∷ 13 ∷ 0 ∷ 14 ∷ 13 ∷ 0 ∷ 15 ∷ 0 ∷ 8 ∷ 768 ∷ 8 ∷ 15 ∷ 0 ∷ 17 ∷ 0
    ∷ 18 ∷ 0 ∷ 19 ∷ 0 ∷ 20 ∷ 0 ∷ 21 ∷ 0 ∷ 22 ∷ 0 ∷ 23 ∷ 0 ∷ 24 ∷ 0 ∷ 25 ∷ 25 ∷ 0 ∷ 25 ∷ 25 ∷ 26 ∷ 0
    ∷ 27 ∷ 0 ∷ 28 ∷ 0 ∷ 29 ∷ 0 ∷ 30 ∷ 0 ∷ 31 ∷ 31 ∷ 0 ∷ 31 ∷ 31 ∷ 32 ∷ 33 ∷ 0 ∷ 33 ∷ 0 ∷ 34 ∷ 768
    ∷ 34 ∷ 33 ∷ 0 ∷ 34 ∷ 34 ∷ 35 ∷ 40 ∷ 36 ∷ 45 ∷ 0 ∷ 36 ∷ 0 ∷ 37 ∷ 0 ∷ 38 ∷ 0 ∷ 39 ∷ 768 ∷ 39 ∷ 0
    ∷ 39 ∷ 39 ∷ 40 ∷ 45 ∷ 0 ∷ 41 ∷ 0 ∷ 42 ∷ 0 ∷ 43 ∷ 768 ∷ 43 ∷ 0 ∷ 43 ∷ 43 ∷ 0 ∷ 44 ∷ 43 ∷ 768 ∷ 43
    ∷ 0 ∷ 44 ∷ 46 ∷ 0 ∷ 47 ∷ 0 ∷ 48 ∷ 0 ∷ 49 ∷ 0 ∷ 50 ∷ 0 ∷ 51 ∷ 0 ∷ 52 ∷ 0 ∷ 42 ∷ 0 ∷ 54 ∷ 71 ∷ 0
    ∷ 55 ∷ 0 ∷ 56 ∷ 0 ∷ 57 ∷ 0 ∷ 58 ∷ 0 ∷ 59 ∷ 0 ∷ 60 ∷ 0 ∷ 61 ∷ 0 ∷ 62 ∷ 0 ∷ 63 ∷ 0 ∷ 64 ∷ 0 ∷ 65
    ∷ 0 ∷ 66 ∷ 0 ∷ 67 ∷ 0 ∷ 68 ∷ 68 ∷ 0 ∷ 68 ∷ 68 ∷ 69 ∷ 70 ∷ 0 ∷ 70 ∷ 0 ∷ 768 ∷ 70 ∷ 0 ∷ 72 ∷ 0
    ∷ 73 ∷ 0 ∷ 74 ∷ 0 ∷ 75 ∷ 0 ∷ 76 ∷ 0 ∷ 77 ∷ 768 ∷ 77 ∷ 0 ∷ 77 ∷ 77 ∷ 78 ∷ 0 ∷ 79 ∷ 0 ∷ 80 ∷ 0
    ∷ 81 ∷ 0 ∷ 82 ∷ 82 ∷ 97 ∷ 0 ∷ 82 ∷ 82 ∷ 83 ∷ 0 ∷ 84 ∷ 83 ∷ 0 ∷ 85 ∷ 0 ∷ 86 ∷ 85 ∷ 0 ∷ 87 ∷ 0
    ∷ 88 ∷ 768 ∷ 88 ∷ 87 ∷ 0 ∷ 88 ∷ 88 ∷ 78 ∷ 89 ∷ 0 ∷ 90 ∷ 0 ∷ 91 ∷ 91 ∷ 0 ∷ 91 ∷ 91 ∷ 92 ∷ 0 ∷ 93
    ∷ 92 ∷ 0 ∷ 94 ∷ 0 ∷ 95 ∷ 94 ∷ 0 ∷ 96 ∷ 0 ∷ 77 ∷ 768 ∷ 77 ∷ 96 ∷ 0 ∷ 98 ∷ 0 ∷ 99 ∷ 0 ∷ 100 ∷ 0
    ∷ 82 ∷ 82 ∷ 0 ∷ 102 ∷ 171 ∷ 0 ∷ 103 ∷ 161 ∷ 0 ∷ 104 ∷ 0 ∷ 105 ∷ 0 ∷ 106 ∷ 0 ∷ 107 ∷ 107 ∷ 0
    ∷ 107 ∷ 107 ∷ 108 ∷ 0 ∷ 109 ∷ 0 ∷ 110 ∷ 0 ∷ 111 ∷ 0 ∷ 112 ∷ 0 ∷ 113 ∷ 768 ∷ 113 ∷ 0 ∷ 113 ∷ 113
    ∷ 114 ∷ 125 ∷ 0 ∷ 115 ∷ 0 ∷ 116 ∷ 0 ∷ 117 ∷ 0 ∷ 118 ∷ 118 ∷ 157 ∷ 0 ∷ 118 ∷ 118 ∷ 119 ∷ 0 ∷ 120
    ∷ 119 ∷ 0 ∷ 121 ∷ 0 ∷ 122 ∷ 121 ∷ 0 ∷ 123 ∷ 0 ∷ 124 ∷ 768 ∷ 124 ∷ 123 ∷ 0 ∷ 124 ∷ 124 ∷ 125 ∷ 0
    ∷ 126 ∷ 148 ∷ 0 ∷ 127 ∷ 0 ∷ 128 ∷ 0 ∷ 129 ∷ 0 ∷ 130 ∷ 0 ∷ 131 ∷ 141 ∷ 0 ∷ 132 ∷ 0 ∷ 133 ∷ 0
    ∷ 134 ∷ 0 ∷ 135 ∷ 0 ∷ 136 ∷ 0 ∷ 137 ∷ 0 ∷ 138 ∷ 0 ∷ 139 ∷ 139 ∷ 0 ∷ 139 ∷ 139 ∷ 140 ∷ 0 ∷ 124
    ∷ 768 ∷ 124 ∷ 140 ∷ 0 ∷ 142 ∷ 0 ∷ 143 ∷ 0 ∷ 144 ∷ 0 ∷ 145 ∷ 0 ∷ 146 ∷ 146 ∷ 0 ∷ 146 ∷ 146 ∷ 147
    ∷ 0 ∷ 124 ∷ 768 ∷ 124 ∷ 147 ∷ 0 ∷ 149 ∷ 0 ∷ 150 ∷ 0 ∷ 151 ∷ 0 ∷ 152 ∷ 0 ∷ 153 ∷ 0 ∷ 154 ∷ 0
    ∷ 155 ∷ 155 ∷ 0 ∷ 155 ∷ 155 ∷ 156 ∷ 0 ∷ 124 ∷ 768 ∷ 124 ∷ 156 ∷ 0 ∷ 158 ∷ 0 ∷ 159 ∷ 0 ∷ 160 ∷ 0
    ∷ 118 ∷ 118 ∷ 0 ∷ 162 ∷ 0 ∷ 163 ∷ 0 ∷ 164 ∷ 0 ∷ 165 ∷ 0 ∷ 166 ∷ 0 ∷ 167 ∷ 0 ∷ 168 ∷ 168 ∷ 0
    ∷ 168 ∷ 168 ∷ 0 ∷ 169 ∷ 170 ∷ 768 ∷ 170 ∷ 0 ∷ 169 ∷ 170 ∷ 170 ∷ 0 ∷ 169 ∷ 172 ∷ 172 ∷ 284 ∷ 0
    ∷ 172 ∷ 172 ∷ 173 ∷ 203 ∷ 232 ∷ 275 ∷ 0 ∷ 174 ∷ 0 ∷ 175 ∷ 0 ∷ 176 ∷ 0 ∷ 177 ∷ 0 ∷ 178 ∷ 0 ∷ 179
    ∷ 0 ∷ 180 ∷ 0 ∷ 181 ∷ 0 ∷ 182 ∷ 0 ∷ 183 ∷ 0 ∷ 184 ∷ 184 ∷ 0 ∷ 184 ∷ 184 ∷ 185 ∷ 195 ∷ 0 ∷ 186
    ∷ 0 ∷ 187 ∷ 0 ∷ 188 ∷ 0 ∷ 189 ∷ 0 ∷ 190 ∷ 0 ∷ 191 ∷ 0 ∷ 192 ∷ 0 ∷ 193 ∷ 193 ∷ 0 ∷ 193 ∷ 193 ∷ 0
    ∷ 194 ∷ 768 ∷ 0 ∷ 0 ∷ 194 ∷ 196 ∷ 0 ∷ 197 ∷ 0 ∷ 198 ∷ 0 ∷ 199 ∷ 0 ∷ 200 ∷ 0 ∷ 201 ∷ 0 ∷ 202 ∷ 0
    ∷ 193 ∷ 193 ∷ 0 ∷ 204 ∷ 0 ∷ 205 ∷ 0 ∷ 206 ∷ 206 ∷ 0 ∷ 206 ∷ 206 ∷ 207 ∷ 0 ∷ 208 ∷ 0 ∷ 209 ∷ 0
    ∷ 210 ∷ 0 ∷ 211 ∷ 0 ∷ 212 ∷ 0 ∷ 213 ∷ 0 ∷ 214 ∷ 0 ∷ 215 ∷ 0 ∷ 216 ∷ 0 ∷ 217 ∷ 0 ∷ 218 ∷ 0 ∷ 219
    ∷ 0 ∷ 220 ∷ 0 ∷ 221 ∷ 221 ∷ 0 ∷ 221 ∷ 221 ∷ 222 ∷ 222 ∷ 222 ∷ 222 ∷ 0 ∷ 221 ∷ 768 ∷ 221 ∷ 223
    ∷ 222 ∷ 222 ∷ 222 ∷ 222 ∷ 0 ∷ 224 ∷ 0 ∷ 225 ∷ 0 ∷ 226 ∷ 0 ∷ 227 ∷ 0 ∷ 228 ∷ 0 ∷ 229 ∷ 0 ∷ 230
    ∷ 0 ∷ 231 ∷ 0 ∷ 221 ∷ 768 ∷ 221 ∷ 0 ∷ 233 ∷ 0 ∷ 234 ∷ 0 ∷ 235 ∷ 0 ∷ 236 ∷ 0 ∷ 237 ∷ 0 ∷ 238 ∷ 0
    ∷ 239 ∷ 0 ∷ 240 ∷ 0 ∷ 241 ∷ 241 ∷ 0 ∷ 241 ∷ 241 ∷ 242 ∷ 248 ∷ 265 ∷ 268 ∷ 0 ∷ 44 ∷ 43 ∷ 768 ∷ 43
    ∷ 243 ∷ 0 ∷ 44 ∷ 43 ∷ 768 ∷ 43 ∷ 244 ∷ 0 ∷ 44 ∷ 43 ∷ 768 ∷ 43 ∷ 245 ∷ 0 ∷ 44 ∷ 43 ∷ 768 ∷ 43
    ∷ 246 ∷ 0 ∷ 44 ∷ 43 ∷ 768 ∷ 43 ∷ 247 ∷ 0 ∷ 44 ∷ 768 ∷ 0 ∷ 0 ∷ 44 ∷ 43 ∷ 768 ∷ 43 ∷ 249 ∷ 0 ∷ 44
    ∷ 43 ∷ 768 ∷ 43 ∷ 250 ∷ 0 ∷ 44 ∷ 43 ∷ 768 ∷ 43 ∷ 251 ∷ 0 ∷ 44 ∷ 43 ∷ 768 ∷ 43 ∷ 252 ∷ 0 ∷ 44
    ∷ 43 ∷ 768 ∷ 43 ∷ 253 ∷ 0 ∷ 44 ∷ 43 ∷ 768 ∷ 43 ∷ 254 ∷ 0 ∷ 44 ∷ 43 ∷ 768 ∷ 43 ∷ 255 ∷ 0 ∷ 44
    ∷ 43 ∷ 768 ∷ 43 ∷ 256 ∷ 0 ∷ 44 ∷ 43 ∷ 768 ∷ 43 ∷ 257 ∷ 0 ∷ 44 ∷ 43 ∷ 768 ∷ 43 ∷ 258 ∷ 0 ∷ 44
    ∷ 43 ∷ 768 ∷ 43 ∷ 259 ∷ 0 ∷ 44 ∷ 43 ∷ 768 ∷ 43 ∷ 260 ∷ 0 ∷ 44 ∷ 43 ∷ 768 ∷ 43 ∷ 261 ∷ 0 ∷ 44
    ∷ 43 ∷ 768 ∷ 43 ∷ 262 ∷ 0 ∷ 44 ∷ 43 ∷ 768 ∷ 43 ∷ 263 ∷ 0 ∷ 44 ∷ 43 ∷ 768 ∷ 43 ∷ 264 ∷ 0 ∷ 44
    ∷ 43 ∷ 768 ∷ 43 ∷ 247 ∷ 0 ∷ 44 ∷ 43 ∷ 768 ∷ 43 ∷ 266 ∷ 0 ∷ 44 ∷ 43 ∷ 768 ∷ 43 ∷ 267 ∷ 0 ∷ 44
    ∷ 43 ∷ 768 ∷ 43 ∷ 244 ∷ 0 ∷ 44 ∷ 43 ∷ 768 ∷ 43 ∷ 269 ∷ 0 ∷ 44 ∷ 43 ∷ 768 ∷ 43 ∷ 270 ∷ 0 ∷ 44
    ∷ 43 ∷ 768 ∷ 43 ∷ 271 ∷ 0 ∷ 44 ∷ 43 ∷ 768 ∷ 43 ∷ 272 ∷ 0 ∷ 44 ∷ 43 ∷ 768 ∷ 43 ∷ 273 ∷ 0 ∷ 44
    ∷ 43 ∷ 768 ∷ 43 ∷ 274 ∷ 0 ∷ 44 ∷ 68 ∷ 68 ∷ 0 ∷ 44 ∷ 276 ∷ 0 ∷ 277 ∷ 0 ∷ 278 ∷ 0 ∷ 279 ∷ 279 ∷ 0
    ∷ 279 ∷ 279 ∷ 280 ∷ 0 ∷ 44 ∷ 43 ∷ 768 ∷ 43 ∷ 281 ∷ 0 ∷ 44 ∷ 43 ∷ 768 ∷ 43 ∷ 282 ∷ 0 ∷ 44 ∷ 43
    ∷ 768 ∷ 43 ∷ 283 ∷ 0 ∷ 44 ∷ 6 ∷ 6 ∷ 0 ∷ 44 ∷ 285 ∷ 0 ∷ 286 ∷ 286 ∷ 0 ∷ 286 ∷ 286 ∷ 287 ∷ 203 ∷ 0
    ∷ 288 ∷ 0 ∷ 289 ∷ 0 ∷ 290 ∷ 0 ∷ 291 ∷ 0 ∷ 292 ∷ 0 ∷ 293 ∷ 0 ∷ 294 ∷ 0 ∷ 295 ∷ 0 ∷ 296 ∷ 0 ∷ 297
    ∷ 0 ∷ 193 ∷ 193 ∷ 0 ∷ 299 ∷ 0 ∷ 300 ∷ 0 ∷ 301 ∷ 0 ∷ 302 ∷ 0 ∷ 768 ∷ 0 ∷ 304 ∷ 324 ∷ 0 ∷ 305 ∷ 0
    ∷ 306 ∷ 306 ∷ 0 ∷ 306 ∷ 306 ∷ 0 ∷ 307 ∷ 308 ∷ 0 ∷ 308 ∷ 307 ∷ 308 ∷ 0 ∷ 308 ∷ 309 ∷ 321 ∷ 307
    ∷ 308 ∷ 0 ∷ 308 ∷ 310 ∷ 307 ∷ 308 ∷ 0 ∷ 308 ∷ 311 ∷ 307 ∷ 308 ∷ 0 ∷ 308 ∷ 312 ∷ 307 ∷ 308 ∷ 0
    ∷ 308 ∷ 313 ∷ 307 ∷ 308 ∷ 0 ∷ 308 ∷ 314 ∷ 307 ∷ 308 ∷ 0 ∷ 308 ∷ 315 ∷ 307 ∷ 316 ∷ 0 ∷ 316 ∷ 307
    ∷ 316 ∷ 0 ∷ 316 ∷ 309 ∷ 317 ∷ 321 ∷ 307 ∷ 308 ∷ 0 ∷ 308 ∷ 318 ∷ 307 ∷ 319 ∷ 0 ∷ 319 ∷ 307 ∷ 319
    ∷ 0 ∷ 319 ∷ 309 ∷ 321 ∷ 320 ∷ 307 ∷ 308 ∷ 768 ∷ 308 ∷ 320 ∷ 307 ∷ 308 ∷ 0 ∷ 308 ∷ 322 ∷ 307
    ∷ 308 ∷ 0 ∷ 308 ∷ 323 ∷ 307 ∷ 308 ∷ 0 ∷ 308 ∷ 313 ∷ 307 ∷ 325 ∷ 0 ∷ 326 ∷ 0 ∷ 327 ∷ 327 ∷ 0
    ∷ 327 ∷ 327 ∷ 328 ∷ 359 ∷ 507 ∷ 0 ∷ 329 ∷ 0 ∷ 330 ∷ 0 ∷ 331 ∷ 0 ∷ 332 ∷ 0 ∷ 333 ∷ []

abbrev pub syntax_trans_targs_late : List ℕ
syntax_trans_targs_late =
    0 ∷ 334 ∷ 334 ∷ 0 ∷ 334 ∷ 334 ∷ 335 ∷ 344 ∷ 352 ∷ 0 ∷ 336 ∷ 0 ∷ 337 ∷ 0 ∷ 338 ∷ 0 ∷ 339 ∷ 0
    ∷ 340 ∷ 340 ∷ 0 ∷ 340 ∷ 340 ∷ 341 ∷ 78 ∷ 0 ∷ 342 ∷ 0 ∷ 343 ∷ 0 ∷ 768 ∷ 0 ∷ 345 ∷ 0 ∷ 346 ∷ 0
    ∷ 347 ∷ 0 ∷ 348 ∷ 0 ∷ 349 ∷ 0 ∷ 350 ∷ 0 ∷ 351 ∷ 351 ∷ 0 ∷ 351 ∷ 351 ∷ 335 ∷ 0 ∷ 353 ∷ 0 ∷ 354
    ∷ 0 ∷ 355 ∷ 0 ∷ 356 ∷ 0 ∷ 357 ∷ 0 ∷ 358 ∷ 0 ∷ 350 ∷ 0 ∷ 360 ∷ 0 ∷ 361 ∷ 0 ∷ 362 ∷ 362 ∷ 0 ∷ 362
    ∷ 362 ∷ 363 ∷ 0 ∷ 364 ∷ 0 ∷ 365 ∷ 0 ∷ 366 ∷ 0 ∷ 367 ∷ 0 ∷ 368 ∷ 0 ∷ 369 ∷ 0 ∷ 370 ∷ 0 ∷ 371 ∷ 0
    ∷ 372 ∷ 0 ∷ 373 ∷ 0 ∷ 374 ∷ 0 ∷ 375 ∷ 0 ∷ 376 ∷ 0 ∷ 377 ∷ 377 ∷ 0 ∷ 377 ∷ 377 ∷ 378 ∷ 0 ∷ 379
    ∷ 0 ∷ 380 ∷ 0 ∷ 381 ∷ 0 ∷ 382 ∷ 0 ∷ 383 ∷ 0 ∷ 384 ∷ 0 ∷ 385 ∷ 0 ∷ 386 ∷ 0 ∷ 387 ∷ 0 ∷ 388 ∷ 0
    ∷ 389 ∷ 389 ∷ 0 ∷ 389 ∷ 389 ∷ 390 ∷ 466 ∷ 493 ∷ 0 ∷ 391 ∷ 0 ∷ 392 ∷ 0 ∷ 393 ∷ 0 ∷ 394 ∷ 0 ∷ 395
    ∷ 0 ∷ 396 ∷ 0 ∷ 397 ∷ 0 ∷ 398 ∷ 0 ∷ 399 ∷ 0 ∷ 400 ∷ 0 ∷ 401 ∷ 401 ∷ 456 ∷ 0 ∷ 401 ∷ 401 ∷ 402
    ∷ 435 ∷ 448 ∷ 0 ∷ 403 ∷ 0 ∷ 404 ∷ 0 ∷ 405 ∷ 0 ∷ 406 ∷ 0 ∷ 407 ∷ 0 ∷ 408 ∷ 0 ∷ 409 ∷ 0 ∷ 410 ∷ 0
    ∷ 411 ∷ 0 ∷ 412 ∷ 0 ∷ 413 ∷ 0 ∷ 414 ∷ 0 ∷ 415 ∷ 0 ∷ 416 ∷ 0 ∷ 417 ∷ 417 ∷ 0 ∷ 417 ∷ 417 ∷ 418
    ∷ 0 ∷ 419 ∷ 0 ∷ 420 ∷ 0 ∷ 421 ∷ 0 ∷ 422 ∷ 0 ∷ 423 ∷ 0 ∷ 424 ∷ 0 ∷ 425 ∷ 0 ∷ 426 ∷ 426 ∷ 0 ∷ 426
    ∷ 426 ∷ 427 ∷ 0 ∷ 428 ∷ 428 ∷ 427 ∷ 0 ∷ 428 ∷ 428 ∷ 429 ∷ 0 ∷ 430 ∷ 0 ∷ 431 ∷ 0 ∷ 432 ∷ 0 ∷ 433
    ∷ 433 ∷ 0 ∷ 433 ∷ 433 ∷ 434 ∷ 0 ∷ 351 ∷ 351 ∷ 434 ∷ 0 ∷ 436 ∷ 0 ∷ 437 ∷ 0 ∷ 438 ∷ 0 ∷ 439 ∷ 0
    ∷ 440 ∷ 0 ∷ 441 ∷ 441 ∷ 0 ∷ 441 ∷ 441 ∷ 442 ∷ 0 ∷ 443 ∷ 0 ∷ 444 ∷ 0 ∷ 445 ∷ 0 ∷ 446 ∷ 446 ∷ 0
    ∷ 446 ∷ 446 ∷ 447 ∷ 0 ∷ 417 ∷ 417 ∷ 447 ∷ 0 ∷ 449 ∷ 0 ∷ 450 ∷ 0 ∷ 451 ∷ 0 ∷ 452 ∷ 0 ∷ 453 ∷ 0
    ∷ 454 ∷ 0 ∷ 455 ∷ 0 ∷ 428 ∷ 428 ∷ 0 ∷ 457 ∷ 0 ∷ 458 ∷ 0 ∷ 459 ∷ 0 ∷ 460 ∷ 0 ∷ 461 ∷ 0 ∷ 462 ∷ 0
    ∷ 463 ∷ 0 ∷ 464 ∷ 0 ∷ 465 ∷ 0 ∷ 401 ∷ 401 ∷ 0 ∷ 467 ∷ 480 ∷ 0 ∷ 468 ∷ 0 ∷ 469 ∷ 0 ∷ 470 ∷ 0
    ∷ 471 ∷ 0 ∷ 472 ∷ 0 ∷ 473 ∷ 0 ∷ 474 ∷ 0 ∷ 475 ∷ 0 ∷ 476 ∷ 0 ∷ 477 ∷ 0 ∷ 478 ∷ 0 ∷ 479 ∷ 0 ∷ 465
    ∷ 0 ∷ 481 ∷ 0 ∷ 482 ∷ 0 ∷ 483 ∷ 0 ∷ 484 ∷ 0 ∷ 485 ∷ 0 ∷ 486 ∷ 0 ∷ 487 ∷ 0 ∷ 488 ∷ 0 ∷ 489 ∷ 0
    ∷ 490 ∷ 0 ∷ 491 ∷ 0 ∷ 492 ∷ 0 ∷ 465 ∷ 0 ∷ 494 ∷ 397 ∷ 0 ∷ 495 ∷ 0 ∷ 496 ∷ 0 ∷ 497 ∷ 0 ∷ 498 ∷ 0
    ∷ 499 ∷ 457 ∷ 0 ∷ 500 ∷ 0 ∷ 501 ∷ 0 ∷ 502 ∷ 0 ∷ 503 ∷ 0 ∷ 504 ∷ 0 ∷ 505 ∷ 0 ∷ 506 ∷ 0 ∷ 462 ∷ 0
    ∷ 508 ∷ 0 ∷ 302 ∷ 0 ∷ 510 ∷ 524 ∷ 0 ∷ 511 ∷ 0 ∷ 512 ∷ 512 ∷ 0 ∷ 512 ∷ 512 ∷ 513 ∷ 0 ∷ 514 ∷ 0
    ∷ 515 ∷ 0 ∷ 516 ∷ 0 ∷ 517 ∷ 0 ∷ 518 ∷ 0 ∷ 519 ∷ 0 ∷ 520 ∷ 0 ∷ 521 ∷ 0 ∷ 522 ∷ 0 ∷ 523 ∷ 0 ∷ 193
    ∷ 193 ∷ 0 ∷ 525 ∷ 0 ∷ 526 ∷ 0 ∷ 527 ∷ 0 ∷ 528 ∷ 0 ∷ 529 ∷ 0 ∷ 530 ∷ 0 ∷ 531 ∷ 0 ∷ 532 ∷ 532 ∷ 0
    ∷ 532 ∷ 532 ∷ 242 ∷ 248 ∷ 533 ∷ 265 ∷ 268 ∷ 0 ∷ 44 ∷ 43 ∷ 768 ∷ 43 ∷ 534 ∷ 0 ∷ 44 ∷ 43 ∷ 768
    ∷ 43 ∷ 535 ∷ 0 ∷ 44 ∷ 43 ∷ 768 ∷ 43 ∷ 536 ∷ 0 ∷ 44 ∷ 43 ∷ 768 ∷ 43 ∷ 537 ∷ 0 ∷ 44 ∷ 31 ∷ 31 ∷ 0
    ∷ 44 ∷ 539 ∷ 0 ∷ 540 ∷ 540 ∷ 0 ∷ 540 ∷ 540 ∷ 541 ∷ 568 ∷ 573 ∷ 0 ∷ 542 ∷ 0 ∷ 543 ∷ 0 ∷ 544 ∷ 0
    ∷ 545 ∷ 0 ∷ 546 ∷ 0 ∷ 547 ∷ 547 ∷ 0 ∷ 547 ∷ 547 ∷ 548 ∷ 0 ∷ 549 ∷ 0 ∷ 550 ∷ 0 ∷ 551 ∷ 0 ∷ 552
    ∷ 0 ∷ 553 ∷ 768 ∷ 553 ∷ 0 ∷ 553 ∷ 553 ∷ 554 ∷ 0 ∷ 555 ∷ 0 ∷ 556 ∷ 0 ∷ 557 ∷ 0 ∷ 558 ∷ 558 ∷ 564
    ∷ 0 ∷ 558 ∷ 558 ∷ 559 ∷ 0 ∷ 560 ∷ 559 ∷ 0 ∷ 561 ∷ 0 ∷ 562 ∷ 561 ∷ 0 ∷ 563 ∷ 0 ∷ 768 ∷ 563 ∷ 0
    ∷ 565 ∷ 0 ∷ 566 ∷ 0 ∷ 567 ∷ 0 ∷ 558 ∷ 558 ∷ 0 ∷ 569 ∷ 0 ∷ 570 ∷ 0 ∷ 571 ∷ 0 ∷ 572 ∷ 572 ∷ 0
    ∷ 572 ∷ 572 ∷ 328 ∷ 507 ∷ 0 ∷ 574 ∷ 618 ∷ 0 ∷ 575 ∷ 0 ∷ 576 ∷ 0 ∷ 577 ∷ 0 ∷ 578 ∷ 0 ∷ 579 ∷ 0
    ∷ 580 ∷ 0 ∷ 581 ∷ 0 ∷ 582 ∷ 0 ∷ 583 ∷ 0 ∷ 584 ∷ 0 ∷ 585 ∷ 0 ∷ 586 ∷ 586 ∷ 0 ∷ 586 ∷ 586 ∷ 587
    ∷ 608 ∷ 0 ∷ 588 ∷ 0 ∷ 589 ∷ 0 ∷ 590 ∷ 0 ∷ 591 ∷ 0 ∷ 592 ∷ 0 ∷ 593 ∷ 593 ∷ 0 ∷ 593 ∷ 593 ∷ 594
    ∷ 0 ∷ 595 ∷ 0 ∷ 596 ∷ 0 ∷ 597 ∷ 0 ∷ 598 ∷ 0 ∷ 599 ∷ 0 ∷ 600 ∷ 0 ∷ 601 ∷ 0 ∷ 602 ∷ 0 ∷ 603 ∷ 0
    ∷ 604 ∷ 0 ∷ 605 ∷ 0 ∷ 606 ∷ 0 ∷ 607 ∷ 0 ∷ 302 ∷ 0 ∷ 609 ∷ 0 ∷ 610 ∷ 0 ∷ 611 ∷ 0 ∷ 612 ∷ 0 ∷ 613
    ∷ 0 ∷ 614 ∷ 0 ∷ 615 ∷ 0 ∷ 616 ∷ 0 ∷ 617 ∷ 0 ∷ 607 ∷ 0 ∷ 619 ∷ 0 ∷ 620 ∷ 0 ∷ 621 ∷ 0 ∷ 622 ∷ 0
    ∷ 623 ∷ 0 ∷ 624 ∷ 0 ∷ 625 ∷ 0 ∷ 626 ∷ 0 ∷ 627 ∷ 0 ∷ 628 ∷ 0 ∷ 629 ∷ 0 ∷ 302 ∷ 0 ∷ 631 ∷ 643 ∷ 0
    ∷ 632 ∷ 0 ∷ 633 ∷ 0 ∷ 634 ∷ 642 ∷ 0 ∷ 635 ∷ 0 ∷ 636 ∷ 0 ∷ 637 ∷ 0 ∷ 638 ∷ 0 ∷ 639 ∷ 639 ∷ 0
    ∷ 641 ∷ 0 ∷ 641 ∷ 640 ∷ 768 ∷ 640 ∷ 641 ∷ 768 ∷ 641 ∷ 640 ∷ 77 ∷ 77 ∷ 0 ∷ 644 ∷ 0 ∷ 645 ∷ 0
    ∷ 646 ∷ 0 ∷ 647 ∷ 0 ∷ 648 ∷ 0 ∷ 649 ∷ 0 ∷ 603 ∷ 0 ∷ 651 ∷ 0 ∷ 652 ∷ 0 ∷ 653 ∷ 0 ∷ 654 ∷ 0 ∷ 655
    ∷ 0 ∷ 656 ∷ 656 ∷ 0 ∷ 656 ∷ 656 ∷ 657 ∷ 0 ∷ 658 ∷ 0 ∷ 659 ∷ 0 ∷ 660 ∷ 0 ∷ 661 ∷ 768 ∷ 661 ∷ 0
    ∷ 661 ∷ 661 ∷ 662 ∷ 0 ∷ 663 ∷ 0 ∷ 664 ∷ 0 ∷ 193 ∷ 193 ∷ 0 ∷ 666 ∷ 618 ∷ 697 ∷ 0 ∷ 667 ∷ 0 ∷ 668
    ∷ 0 ∷ 669 ∷ 0 ∷ 670 ∷ 0 ∷ 671 ∷ 0 ∷ 672 ∷ 0 ∷ 673 ∷ 0 ∷ 674 ∷ 0 ∷ 675 ∷ 0 ∷ 676 ∷ 0 ∷ 677 ∷ 0
    ∷ 678 ∷ 768 ∷ 678 ∷ 0 ∷ 678 ∷ 678 ∷ 679 ∷ 686 ∷ 608 ∷ 0 ∷ 680 ∷ 0 ∷ 681 ∷ 0 ∷ 682 ∷ 0 ∷ 683 ∷ 0
    ∷ 684 ∷ 0 ∷ 685 ∷ 768 ∷ 685 ∷ 0 ∷ 685 ∷ 685 ∷ 594 ∷ 686 ∷ 0 ∷ 687 ∷ 0 ∷ 688 ∷ 0 ∷ 689 ∷ 0 ∷ 690
    ∷ 0 ∷ 691 ∷ 0 ∷ 692 ∷ 0 ∷ 693 ∷ 0 ∷ 694 ∷ 694 ∷ 0 ∷ 694 ∷ 694 ∷ 695 ∷ 696 ∷ 0 ∷ 696 ∷ 0 ∷ 768
    ∷ 696 ∷ 0 ∷ 698 ∷ 0 ∷ 699 ∷ 0 ∷ 700 ∷ 0 ∷ 701 ∷ 0 ∷ 702 ∷ 0 ∷ 703 ∷ 0 ∷ 704 ∷ 0 ∷ 705 ∷ 0 ∷ 706
    ∷ 0 ∷ 707 ∷ 0 ∷ 708 ∷ 0 ∷ 709 ∷ 0 ∷ 710 ∷ 0 ∷ 711 ∷ 0 ∷ 712 ∷ 0 ∷ 713 ∷ 0 ∷ 714 ∷ 0 ∷ 715 ∷ 0
    ∷ 716 ∷ 0 ∷ 717 ∷ 0 ∷ 718 ∷ 0 ∷ 719 ∷ 0 ∷ 43 ∷ 43 ∷ 0 ∷ 721 ∷ 0 ∷ 722 ∷ 0 ∷ 723 ∷ 0 ∷ 724 ∷ 0
    ∷ 725 ∷ 725 ∷ 0 ∷ 725 ∷ 725 ∷ 726 ∷ 0 ∷ 727 ∷ 0 ∷ 728 ∷ 0 ∷ 302 ∷ 0 ∷ 730 ∷ 0 ∷ 731 ∷ 0 ∷ 732
    ∷ 0 ∷ 733 ∷ 0 ∷ 734 ∷ 0 ∷ 735 ∷ 0 ∷ 736 ∷ 0 ∷ 737 ∷ 0 ∷ 738 ∷ 0 ∷ 20 ∷ 0 ∷ 740 ∷ 746 ∷ 756 ∷ 0
    ∷ 741 ∷ 0 ∷ 742 ∷ 0 ∷ 743 ∷ 743 ∷ 0 ∷ 743 ∷ 743 ∷ 744 ∷ 745 ∷ 0 ∷ 745 ∷ 0 ∷ 43 ∷ 768 ∷ 43 ∷ 745
    ∷ 0 ∷ 747 ∷ 0 ∷ 748 ∷ 0 ∷ 749 ∷ 0 ∷ 750 ∷ 0 ∷ 751 ∷ 0 ∷ 752 ∷ 0 ∷ 753 ∷ 0 ∷ 754 ∷ 0 ∷ 755 ∷ 755
    ∷ 0 ∷ 755 ∷ 755 ∷ 70 ∷ 0 ∷ 757 ∷ 0 ∷ 758 ∷ 758 ∷ 0 ∷ 758 ∷ 758 ∷ 759 ∷ 0 ∷ 760 ∷ 0 ∷ 761 ∷ 0
    ∷ 762 ∷ 0 ∷ 763 ∷ 0 ∷ 764 ∷ 0 ∷ 765 ∷ 0 ∷ 766 ∷ 0 ∷ 767 ∷ 0 ∷ 664 ∷ 0 ∷ 0 ∷ []

abbrev pub syntax_trans_targs : List ℕ
syntax_trans_targs = syntax_trans_targs_early ++ syntax_trans_targs_late
