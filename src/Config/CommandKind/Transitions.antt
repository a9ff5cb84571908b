-- ===== src/Config/CommandKind/Transitions.antt =====
-- internal/config/command_parser.go: the tables of the machine `command` that a transition indexes.
use fastiron_tofu.Prelude.{ℕ, List, [], ◌∷◌}

abbrev pub command_trans_targs : List ℕ
command_trans_targs =
    2 ∷ 5 ∷ 19 ∷ 38 ∷ 102 ∷ 106 ∷ 157 ∷ 168 ∷ 198 ∷ 218 ∷ 228 ∷ 253 ∷ 262 ∷ 272 ∷ 0 ∷ 3 ∷ 0 ∷ 4 ∷ 0
    ∷ 295 ∷ 0 ∷ 6 ∷ 0 ∷ 7 ∷ 0 ∷ 8 ∷ 0 ∷ 9 ∷ 0 ∷ 10 ∷ 0 ∷ 11 ∷ 0 ∷ 12 ∷ 0 ∷ 13 ∷ 0 ∷ 14 ∷ 14 ∷ 0 ∷ 14
    ∷ 14 ∷ 15 ∷ 0 ∷ 16 ∷ 0 ∷ 17 ∷ 0 ∷ 18 ∷ 0 ∷ 297 ∷ 0 ∷ 20 ∷ 33 ∷ 0 ∷ 21 ∷ 0 ∷ 22 ∷ 0 ∷ 23 ∷ 0 ∷ 24
    ∷ 0 ∷ 25 ∷ 0 ∷ 26 ∷ 0 ∷ 27 ∷ 0 ∷ 28 ∷ 0 ∷ 29 ∷ 0 ∷ 30 ∷ 0 ∷ 31 ∷ 0 ∷ 32 ∷ 0 ∷ 299 ∷ 0 ∷ 34 ∷ 0
    ∷ 35 ∷ 0 ∷ 36 ∷ 0 ∷ 37 ∷ 0 ∷ 300 ∷ 0 ∷ 39 ∷ 55 ∷ 0 ∷ 40 ∷ 49 ∷ 0 ∷ 41 ∷ 0 ∷ 42 ∷ 0 ∷ 43 ∷ 0 ∷ 44
    ∷ 44 ∷ 0 ∷ 44 ∷ 44 ∷ 45 ∷ 0 ∷ 46 ∷ 0 ∷ 47 ∷ 0 ∷ 48 ∷ 0 ∷ 302 ∷ 0 ∷ 50 ∷ 0 ∷ 51 ∷ 0 ∷ 52 ∷ 0 ∷ 53
    ∷ 0 ∷ 54 ∷ 0 ∷ 314 ∷ 0 ∷ 56 ∷ 56 ∷ 99 ∷ 0 ∷ 56 ∷ 56 ∷ 57 ∷ 67 ∷ 84 ∷ 92 ∷ 95 ∷ 0 ∷ 58 ∷ 0 ∷ 59
    ∷ 0 ∷ 60 ∷ 0 ∷ 61 ∷ 0 ∷ 62 ∷ 0 ∷ 63 ∷ 0 ∷ 64 ∷ 0 ∷ 65 ∷ 0 ∷ 66 ∷ 0 ∷ 316 ∷ 0 ∷ 68 ∷ 0 ∷ 69 ∷ 0
    ∷ 70 ∷ 70 ∷ 0 ∷ 70 ∷ 70 ∷ 71 ∷ 0 ∷ 72 ∷ 0 ∷ 73 ∷ 0 ∷ 74 ∷ 0 ∷ 75 ∷ 0 ∷ 76 ∷ 0 ∷ 77 ∷ 0 ∷ 78 ∷ 0
    ∷ 79 ∷ 0 ∷ 80 ∷ 0 ∷ 81 ∷ 0 ∷ 82 ∷ 0 ∷ 83 ∷ 0 ∷ 317 ∷ 0 ∷ 85 ∷ 0 ∷ 86 ∷ 0 ∷ 87 ∷ 0 ∷ 88 ∷ 0 ∷ 89
    ∷ 0 ∷ 90 ∷ 0 ∷ 91 ∷ 0 ∷ 319 ∷ 0 ∷ 93 ∷ 0 ∷ 94 ∷ 0 ∷ 321 ∷ 0 ∷ 96 ∷ 0 ∷ 97 ∷ 0 ∷ 98 ∷ 0 ∷ 329 ∷ 0
    ∷ 100 ∷ 0 ∷ 101 ∷ 101 ∷ 0 ∷ 101 ∷ 101 ∷ 57 ∷ 67 ∷ 0 ∷ 103 ∷ 0 ∷ 104 ∷ 0 ∷ 105 ∷ 0 ∷ 331 ∷ 0
    ∷ 107 ∷ 108 ∷ 0 ∷ 333 ∷ 0 ∷ 109 ∷ 0 ∷ 110 ∷ 0 ∷ 111 ∷ 111 ∷ 0 ∷ 111 ∷ 111 ∷ 112 ∷ 138 ∷ 155 ∷ 0
    ∷ 113 ∷ 0 ∷ 114 ∷ 0 ∷ 115 ∷ 0 ∷ 116 ∷ 0 ∷ 117 ∷ 0 ∷ 118 ∷ 118 ∷ 0 ∷ 118 ∷ 118 ∷ 119 ∷ 123 ∷ 131
    ∷ 0 ∷ 120 ∷ 0 ∷ 121 ∷ 0 ∷ 122 ∷ 0 ∷ 335 ∷ 0 ∷ 124 ∷ 0 ∷ 125 ∷ 0 ∷ 126 ∷ 0 ∷ 127 ∷ 0 ∷ 128 ∷ 0
    ∷ 129 ∷ 0 ∷ 130 ∷ 130 ∷ 0 ∷ 130 ∷ 130 ∷ 119 ∷ 0 ∷ 132 ∷ 0 ∷ 133 ∷ 0 ∷ 134 ∷ 0 ∷ 135 ∷ 0 ∷ 136
    ∷ 0 ∷ 137 ∷ 0 ∷ 129 ∷ 0 ∷ 139 ∷ 0 ∷ 140 ∷ 0 ∷ 141 ∷ 141 ∷ 0 ∷ 141 ∷ 141 ∷ 142 ∷ 0 ∷ 143 ∷ 0
    ∷ 144 ∷ 0 ∷ 145 ∷ 0 ∷ 146 ∷ 0 ∷ 147 ∷ 0 ∷ 148 ∷ 0 ∷ 149 ∷ 0 ∷ 150 ∷ 0 ∷ 151 ∷ 0 ∷ 152 ∷ 0 ∷ 153
    ∷ 0 ∷ 154 ∷ 0 ∷ 337 ∷ 0 ∷ 156 ∷ 0 ∷ 339 ∷ 0 ∷ 158 ∷ 161 ∷ 0 ∷ 159 ∷ 0 ∷ 160 ∷ 160 ∷ 0 ∷ 160
    ∷ 160 ∷ 57 ∷ 0 ∷ 162 ∷ 0 ∷ 163 ∷ 0 ∷ 164 ∷ 0 ∷ 165 ∷ 0 ∷ 166 ∷ 0 ∷ 167 ∷ 0 ∷ 341 ∷ 0 ∷ 169 ∷ 0
    ∷ 170 ∷ 170 ∷ 0 ∷ 170 ∷ 170 ∷ 171 ∷ 173 ∷ 174 ∷ 0 ∷ 172 ∷ 0 ∷ 40 ∷ 0 ∷ 108 ∷ 0 ∷ 175 ∷ 186 ∷ 0
    ∷ 176 ∷ 0 ∷ 177 ∷ 0 ∷ 178 ∷ 0 ∷ 179 ∷ 0 ∷ 180 ∷ 0 ∷ 181 ∷ 0 ∷ 182 ∷ 0 ∷ 183 ∷ 0 ∷ 184 ∷ 0 ∷ 185
    ∷ 0 ∷ 348 ∷ 0 ∷ 187 ∷ 0 ∷ 188 ∷ 0 ∷ 189 ∷ 0 ∷ 190 ∷ 0 ∷ 191 ∷ 0 ∷ 192 ∷ 0 ∷ 193 ∷ 0 ∷ 194 ∷ 0
    ∷ 195 ∷ 0 ∷ 196 ∷ 0 ∷ 197 ∷ 0 ∷ 387 ∷ 0 ∷ 199 ∷ 206 ∷ 0 ∷ 200 ∷ 0 ∷ 201 ∷ 0 ∷ 202 ∷ 391 ∷ 0
    ∷ 203 ∷ 0 ∷ 204 ∷ 0 ∷ 205 ∷ 0 ∷ 389 ∷ 0 ∷ 207 ∷ 0 ∷ 208 ∷ 0 ∷ 209 ∷ 0 ∷ 210 ∷ 0 ∷ 211 ∷ 0 ∷ 212
    ∷ 0 ∷ 213 ∷ 0 ∷ 214 ∷ 0 ∷ 215 ∷ 0 ∷ 216 ∷ 0 ∷ 217 ∷ 0 ∷ 393 ∷ 0 ∷ 219 ∷ 0 ∷ 220 ∷ 0 ∷ 221 ∷ 0
    ∷ 222 ∷ 0 ∷ 223 ∷ 0 ∷ 224 ∷ 224 ∷ 0 ∷ 224 ∷ 224 ∷ 225 ∷ 0 ∷ 226 ∷ 0 ∷ 227 ∷ 0 ∷ 395 ∷ 0 ∷ 175
    ∷ 186 ∷ 229 ∷ 0 ∷ 230 ∷ 0 ∷ 231 ∷ 0 ∷ 232 ∷ 0 ∷ 233 ∷ 0 ∷ 234 ∷ 0 ∷ 235 ∷ 0 ∷ 236 ∷ 0 ∷ 237 ∷ 0
    ∷ 238 ∷ 0 ∷ 239 ∷ 0 ∷ 240 ∷ 0 ∷ 241 ∷ 0 ∷ 242 ∷ 0 ∷ 243 ∷ 0 ∷ 244 ∷ 0 ∷ 245 ∷ 0 ∷ 246 ∷ 0 ∷ 247
    ∷ 0 ∷ 248 ∷ 0 ∷ 249 ∷ 0 ∷ 250 ∷ 0 ∷ 251 ∷ 0 ∷ 252 ∷ 252 ∷ 0 ∷ 0 ∷ 397 ∷ 254 ∷ 0 ∷ 255 ∷ 0 ∷ 256
    ∷ 0 ∷ 257 ∷ 0 ∷ 258 ∷ 258 ∷ 0 ∷ 258 ∷ 258 ∷ 259 ∷ 0 ∷ 260 ∷ 0 ∷ 261 ∷ 0 ∷ 398 ∷ 0 ∷ 263 ∷ 0
    ∷ 264 ∷ 0 ∷ 265 ∷ 0 ∷ 266 ∷ 0 ∷ 267 ∷ 0 ∷ 268 ∷ 0 ∷ 269 ∷ 0 ∷ 270 ∷ 0 ∷ 271 ∷ 0 ∷ 9 ∷ 0 ∷ 273
    ∷ 275 ∷ 283 ∷ 0 ∷ 274 ∷ 0 ∷ 400 ∷ 0 ∷ 276 ∷ 0 ∷ 277 ∷ 0 ∷ 278 ∷ 0 ∷ 279 ∷ 0 ∷ 280 ∷ 0 ∷ 281 ∷ 0
    ∷ 282 ∷ 0 ∷ 402 ∷ 0 ∷ 284 ∷ 0 ∷ 285 ∷ 285 ∷ 0 ∷ 285 ∷ 285 ∷ 286 ∷ 0 ∷ 287 ∷ 0 ∷ 288 ∷ 0 ∷ 289
    ∷ 0 ∷ 290 ∷ 0 ∷ 291 ∷ 0 ∷ 292 ∷ 0 ∷ 293 ∷ 0 ∷ 294 ∷ 0 ∷ 404 ∷ 0 ∷ 296 ∷ 296 ∷ 0 ∷ 0 ∷ 296 ∷ 298
    ∷ 298 ∷ 0 ∷ 0 ∷ 298 ∷ 0 ∷ 299 ∷ 301 ∷ 301 ∷ 0 ∷ 0 ∷ 301 ∷ 303 ∷ 303 ∷ 0 ∷ 303 ∷ 0 ∷ 303 ∷ 305
    ∷ 304 ∷ 0 ∷ 304 ∷ 0 ∷ 306 ∷ 304 ∷ 0 ∷ 307 ∷ 304 ∷ 0 ∷ 308 ∷ 304 ∷ 309 ∷ 0 ∷ 309 ∷ 310 ∷ 304 ∷ 0
    ∷ 309 ∷ 0 ∷ 311 ∷ 304 ∷ 0 ∷ 312 ∷ 304 ∷ 0 ∷ 313 ∷ 304 ∷ 309 ∷ 0 ∷ 309 ∷ 304 ∷ 315 ∷ 315 ∷ 0 ∷ 0
    ∷ 315 ∷ 0 ∷ 316 ∷ 318 ∷ 318 ∷ 0 ∷ 0 ∷ 318 ∷ 320 ∷ 320 ∷ 0 ∷ 0 ∷ 320 ∷ 322 ∷ 322 ∷ 0 ∷ 322 ∷ 0
    ∷ 322 ∷ 324 ∷ 323 ∷ 0 ∷ 323 ∷ 0 ∷ 325 ∷ 323 ∷ 0 ∷ 326 ∷ 323 ∷ 0 ∷ 327 ∷ 323 ∷ 328 ∷ 0 ∷ 328
    ∷ 323 ∷ 0 ∷ 328 ∷ 330 ∷ 330 ∷ 0 ∷ 0 ∷ 330 ∷ 332 ∷ 332 ∷ 0 ∷ 0 ∷ 332 ∷ 334 ∷ 334 ∷ 0 ∷ 0 ∷ 334
    ∷ 336 ∷ 336 ∷ 0 ∷ 0 ∷ 336 ∷ 338 ∷ 338 ∷ 0 ∷ 0 ∷ 338 ∷ 340 ∷ 340 ∷ 0 ∷ 0 ∷ 340 ∷ 342 ∷ 342 ∷ 0
    ∷ 342 ∷ 0 ∷ 342 ∷ 343 ∷ 320 ∷ 0 ∷ 344 ∷ 320 ∷ 0 ∷ 345 ∷ 320 ∷ 0 ∷ 346 ∷ 320 ∷ 0 ∷ 347 ∷ 320
    ∷ 298 ∷ 0 ∷ 298 ∷ 320 ∷ 349 ∷ 349 ∷ 0 ∷ 349 ∷ 0 ∷ 349 ∷ 351 ∷ 374 ∷ 350 ∷ 0 ∷ 350 ∷ 0 ∷ 352
    ∷ 350 ∷ 0 ∷ 353 ∷ 350 ∷ 0 ∷ 354 ∷ 350 ∷ 0 ∷ 355 ∷ 350 ∷ 0 ∷ 356 ∷ 350 ∷ 357 ∷ 0 ∷ 357 ∷ 350
    ∷ 357 ∷ 0 ∷ 357 ∷ 358 ∷ 350 ∷ 0 ∷ 359 ∷ 350 ∷ 0 ∷ 360 ∷ 350 ∷ 0 ∷ 361 ∷ 350 ∷ 0 ∷ 362 ∷ 350 ∷ 0
    ∷ 363 ∷ 350 ∷ 0 ∷ 364 ∷ 350 ∷ 0 ∷ 365 ∷ 350 ∷ 0 ∷ 366 ∷ 350 ∷ 0 ∷ 367 ∷ 350 ∷ 0 ∷ 368 ∷ 350 ∷ 0
    ∷ 369 ∷ 350 ∷ 0 ∷ 370 ∷ 350 ∷ 0 ∷ 371 ∷ 350 ∷ 0 ∷ 372 ∷ 350 ∷ 373 ∷ 0 ∷ 373 ∷ 350 ∷ 0 ∷ 373 ∷ 0
    ∷ 375 ∷ 350 ∷ 0 ∷ 376 ∷ 350 ∷ 0 ∷ 377 ∷ 350 ∷ 0 ∷ 378 ∷ 350 ∷ 0 ∷ 379 ∷ 350 ∷ 0 ∷ 380 ∷ 350 ∷ 0
    ∷ 381 ∷ 350 ∷ 0 ∷ 382 ∷ 350 ∷ 0 ∷ 383 ∷ 350 ∷ 0 ∷ 384 ∷ 350 ∷ 0 ∷ 385 ∷ 350 ∷ 386 ∷ 0 ∷ 386
    ∷ 350 ∷ 0 ∷ 386 ∷ 388 ∷ 388 ∷ 0 ∷ 0 ∷ 388 ∷ 390 ∷ 390 ∷ 0 ∷ 0 ∷ 390 ∷ 392 ∷ 392 ∷ 0 ∷ 0 ∷ 392
    ∷ 394 ∷ 394 ∷ 0 ∷ 0 ∷ 394 ∷ 396 ∷ 396 ∷ 0 ∷ 0 ∷ 396 ∷ 0 ∷ 397 ∷ 399 ∷ 399 ∷ 0 ∷ 0 ∷ 399 ∷ 401
    ∷ 401 ∷ 0 ∷ 0 ∷ 401 ∷ 403 ∷ 403 ∷ 0 ∷ 0 ∷ 403 ∷ 405 ∷ 405 ∷ 0 ∷ 0 ∷ 405 ∷ []

abbrev pub command_trans_actions : List ℕ
command_trans_actions =
    0 ∷ 0 ∷ 0 ∷ 0 ∷ 0 ∷ 0 ∷ 0 ∷ 0 ∷ 0 ∷ 0 ∷ 0 ∷ 0 ∷ 0 ∷ 0 ∷ 0 ∷ 0 ∷ 0 ∷ 0 ∷ 0 ∷ 7 ∷ 0 ∷ 0 ∷ 0 ∷ 0
    ∷ 0 ∷ 0 ∷ 0 ∷ 0 ∷ 0 ∷ 0 ∷ 0 ∷ 0 ∷ 0 ∷ 0 ∷ 0 ∷ 0 ∷ 0 ∷ 0 ∷ 0 ∷ 0 ∷ 0 ∷ 0 ∷ 0 ∷ 0 ∷ 0 ∷ 0 ∷ 0 ∷ 0
    ∷ 0 ∷ 0 ∷ 61 ∷ 0 ∷ 0 ∷ 0 ∷ 0 ∷ 0 ∷ 0 ∷ 0 ∷ 0 ∷ 0 ∷ 0 ∷ 0 ∷ 0 ∷ 0 ∷ 0 ∷ 0 ∷ 0 ∷ 0 ∷ 0 ∷ 0 ∷ 0 ∷ 0
    ∷ 0 ∷ 0 ∷ 0 ∷ 0 ∷ 0 ∷ 0 ∷ 0 ∷ 45 ∷ 0 ∷ 0 ∷ 0 ∷ 0 ∷ 0 ∷ 0 ∷ 0 ∷ 0 ∷ 0 ∷ 43 ∷ 0 ∷ 0 ∷ 0 ∷ 0 ∷ 0
    ∷ 0 ∷ 0 ∷ 0 ∷ 0 ∷ 0 ∷ 0 ∷ 0 ∷ 0 ∷ 0 ∷ 0 ∷ 0 ∷ 0 ∷ 0 ∷ 0 ∷ 0 ∷ 0 ∷ 0 ∷ 0 ∷ 0 ∷ 0 ∷ 0 ∷ 25 ∷ 0 ∷ 0
    ∷ 0 ∷ 0 ∷ 0 ∷ 0 ∷ 0 ∷ 0 ∷ 0 ∷ 0 ∷ 0 ∷ 53 ∷ 0 ∷ 0 ∷ 0 ∷ 0 ∷ 0 ∷ 0 ∷ 0 ∷ 0 ∷ 0 ∷ 0 ∷ 0 ∷ 0 ∷ 0 ∷ 0
    ∷ 0 ∷ 0 ∷ 0 ∷ 0 ∷ 0 ∷ 0 ∷ 0 ∷ 0 ∷ 0 ∷ 0 ∷ 0 ∷ 0 ∷ 0 ∷ 0 ∷ 0 ∷ 0 ∷ 0 ∷ 55 ∷ 0 ∷ 0 ∷ 0 ∷ 0 ∷ 0 ∷ 0
    ∷ 0 ∷ 0 ∷ 0 ∷ 0 ∷ 0 ∷ 0 ∷ 0 ∷ 0 ∷ 0 ∷ 0 ∷ 0 ∷ 0 ∷ 0 ∷ 0 ∷ 0 ∷ 0 ∷ 0 ∷ 0 ∷ 0 ∷ 0 ∷ 0 ∷ 0 ∷ 0 ∷ 0
    ∷ 0 ∷ 0 ∷ 0 ∷ 0 ∷ 0 ∷ 0 ∷ 1 ∷ 0 ∷ 0 ∷ 0 ∷ 0 ∷ 0 ∷ 0 ∷ 0 ∷ 0 ∷ 0 ∷ 0 ∷ 0 ∷ 0 ∷ 0 ∷ 0 ∷ 0 ∷ 57 ∷ 0
    ∷ 0 ∷ 0 ∷ 0 ∷ 0 ∷ 11 ∷ 0 ∷ 0 ∷ 0 ∷ 0 ∷ 0 ∷ 0 ∷ 0 ∷ 13 ∷ 0 ∷ 0 ∷ 0 ∷ 0 ∷ 0 ∷ 0 ∷ 0 ∷ 0 ∷ 0 ∷ 0
    ∷ 0 ∷ 0 ∷ 0 ∷ 0 ∷ 0 ∷ 0 ∷ 0 ∷ 39 ∷ 0 ∷ 0 ∷ 0 ∷ 0 ∷ 49 ∷ 0 ∷ 0 ∷ 0 ∷ 0 ∷ 0 ∷ 0 ∷ 0 ∷ 0 ∷ 0 ∷ 0
    ∷ 0 ∷ 0 ∷ 0 ∷ 0 ∷ 0 ∷ 0 ∷ 0 ∷ 0 ∷ 0 ∷ 0 ∷ 0 ∷ 0 ∷ 0 ∷ 0 ∷ 0 ∷ 0 ∷ 0 ∷ 0 ∷ 0 ∷ 0 ∷ 0 ∷ 0 ∷ 0 ∷ 0
    ∷ 0 ∷ 0 ∷ 0 ∷ 0 ∷ 0 ∷ 37 ∷ 0 ∷ 0 ∷ 0 ∷ 0 ∷ 0 ∷ 0 ∷ 0 ∷ 0 ∷ 0 ∷ 0 ∷ 0 ∷ 0 ∷ 0 ∷ 0 ∷ 0 ∷ 0 ∷ 0 ∷ 0
    ∷ 0 ∷ 0 ∷ 0 ∷ 0 ∷ 0 ∷ 0 ∷ 0 ∷ 0 ∷ 0 ∷ 0 ∷ 0 ∷ 0 ∷ 0 ∷ 0 ∷ 0 ∷ 0 ∷ 0 ∷ 0 ∷ 0 ∷ 0 ∷ 0 ∷ 0 ∷ 0 ∷ 0
    ∷ 0 ∷ 0 ∷ 0 ∷ 0 ∷ 0 ∷ 0 ∷ 0 ∷ 0 ∷ 0 ∷ 0 ∷ 0 ∷ 0 ∷ 0 ∷ 0 ∷ 0 ∷ 0 ∷ 0 ∷ 0 ∷ 0 ∷ 0 ∷ 0 ∷ 0 ∷ 0 ∷ 0
    ∷ 0 ∷ 0 ∷ 0 ∷ 35 ∷ 0 ∷ 0 ∷ 0 ∷ 33 ∷ 0 ∷ 0 ∷ 0 ∷ 0 ∷ 0 ∷ 0 ∷ 0 ∷ 0 ∷ 0 ∷ 0 ∷ 0 ∷ 0 ∷ 0 ∷ 0 ∷ 0
    ∷ 0 ∷ 0 ∷ 0 ∷ 0 ∷ 0 ∷ 0 ∷ 0 ∷ 0 ∷ 0 ∷ 0 ∷ 57 ∷ 0 ∷ 0 ∷ 0 ∷ 0 ∷ 0 ∷ 0 ∷ 0 ∷ 0 ∷ 0 ∷ 0 ∷ 0 ∷ 0 ∷ 0
    ∷ 0 ∷ 0 ∷ 0 ∷ 0 ∷ 0 ∷ 0 ∷ 0 ∷ 0 ∷ 0 ∷ 0 ∷ 0 ∷ 0 ∷ 0 ∷ 0 ∷ 0 ∷ 0 ∷ 0 ∷ 0 ∷ 0 ∷ 0 ∷ 0 ∷ 0 ∷ 0 ∷ 0
    ∷ 0 ∷ 0 ∷ 0 ∷ 0 ∷ 21 ∷ 0 ∷ 0 ∷ 0 ∷ 0 ∷ 0 ∷ 0 ∷ 0 ∷ 0 ∷ 0 ∷ 0 ∷ 0 ∷ 0 ∷ 0 ∷ 0 ∷ 0 ∷ 0 ∷ 0 ∷ 0 ∷ 0
    ∷ 0 ∷ 0 ∷ 0 ∷ 0 ∷ 19 ∷ 0 ∷ 0 ∷ 0 ∷ 0 ∷ 0 ∷ 0 ∷ 0 ∷ 0 ∷ 0 ∷ 51 ∷ 0 ∷ 0 ∷ 0 ∷ 0 ∷ 0 ∷ 0 ∷ 0 ∷ 41
    ∷ 0 ∷ 0 ∷ 0 ∷ 0 ∷ 0 ∷ 0 ∷ 0 ∷ 0 ∷ 0 ∷ 0 ∷ 0 ∷ 0 ∷ 0 ∷ 0 ∷ 0 ∷ 0 ∷ 0 ∷ 0 ∷ 0 ∷ 0 ∷ 0 ∷ 0 ∷ 0 ∷ 29
    ∷ 0 ∷ 0 ∷ 0 ∷ 0 ∷ 0 ∷ 0 ∷ 0 ∷ 0 ∷ 0 ∷ 0 ∷ 0 ∷ 0 ∷ 0 ∷ 0 ∷ 0 ∷ 0 ∷ 0 ∷ 0 ∷ 0 ∷ 0 ∷ 0 ∷ 0 ∷ 5 ∷ 0
    ∷ 0 ∷ 0 ∷ 0 ∷ 0 ∷ 0 ∷ 0 ∷ 0 ∷ 0 ∷ 0 ∷ 0 ∷ 0 ∷ 0 ∷ 0 ∷ 0 ∷ 0 ∷ 0 ∷ 0 ∷ 0 ∷ 0 ∷ 0 ∷ 0 ∷ 0 ∷ 0 ∷ 0
    ∷ 0 ∷ 0 ∷ 0 ∷ 0 ∷ 0 ∷ 0 ∷ 0 ∷ 0 ∷ 0 ∷ 0 ∷ 0 ∷ 0 ∷ 0 ∷ 0 ∷ 0 ∷ 0 ∷ 0 ∷ 0 ∷ 0 ∷ 0 ∷ 0 ∷ 0 ∷ 0 ∷ 0
    ∷ 0 ∷ 0 ∷ 0 ∷ 0 ∷ 59 ∷ 0 ∷ 0 ∷ 0 ∷ 0 ∷ 0 ∷ 0 ∷ 0 ∷ 0 ∷ 0 ∷ 0 ∷ 0 ∷ 0 ∷ 0 ∷ 0 ∷ 0 ∷ 0 ∷ 0 ∷ 0 ∷ 0
    ∷ 27 ∷ 0 ∷ 0 ∷ 0 ∷ 0 ∷ 0 ∷ 0 ∷ 0 ∷ 0 ∷ 0 ∷ 0 ∷ 0 ∷ 0 ∷ 0 ∷ 0 ∷ 0 ∷ 0 ∷ 0 ∷ 0 ∷ 0 ∷ 0 ∷ 0 ∷ 0 ∷ 0
    ∷ 0 ∷ 0 ∷ 0 ∷ 0 ∷ 47 ∷ 0 ∷ 0 ∷ 0 ∷ 0 ∷ 0 ∷ 0 ∷ 0 ∷ 0 ∷ 0 ∷ 0 ∷ 0 ∷ 0 ∷ 0 ∷ 0 ∷ 0 ∷ 31 ∷ 0 ∷ 0
    ∷ 0 ∷ 0 ∷ 0 ∷ 0 ∷ 0 ∷ 0 ∷ 0 ∷ 0 ∷ 0 ∷ 0 ∷ 0 ∷ 0 ∷ 0 ∷ 0 ∷ 0 ∷ 0 ∷ 0 ∷ 0 ∷ 0 ∷ 0 ∷ 0 ∷ 0 ∷ 0 ∷ 0
    ∷ 3 ∷ 0 ∷ 7 ∷ 7 ∷ 0 ∷ 0 ∷ 7 ∷ 61 ∷ 61 ∷ 0 ∷ 0 ∷ 61 ∷ 0 ∷ 45 ∷ 43 ∷ 43 ∷ 0 ∷ 0 ∷ 43 ∷ 25 ∷ 25 ∷ 0
    ∷ 25 ∷ 0 ∷ 25 ∷ 25 ∷ 25 ∷ 0 ∷ 25 ∷ 0 ∷ 25 ∷ 25 ∷ 0 ∷ 25 ∷ 25 ∷ 0 ∷ 23 ∷ 25 ∷ 23 ∷ 0 ∷ 23 ∷ 25
    ∷ 25 ∷ 0 ∷ 23 ∷ 0 ∷ 25 ∷ 25 ∷ 0 ∷ 25 ∷ 25 ∷ 0 ∷ 23 ∷ 25 ∷ 23 ∷ 0 ∷ 23 ∷ 25 ∷ 53 ∷ 53 ∷ 0 ∷ 0
    ∷ 53 ∷ 0 ∷ 55 ∷ 1 ∷ 1 ∷ 0 ∷ 0 ∷ 1 ∷ 57 ∷ 57 ∷ 0 ∷ 0 ∷ 57 ∷ 11 ∷ 11 ∷ 0 ∷ 11 ∷ 0 ∷ 11 ∷ 11 ∷ 11
    ∷ 0 ∷ 11 ∷ 0 ∷ 11 ∷ 11 ∷ 0 ∷ 11 ∷ 11 ∷ 0 ∷ 9 ∷ 11 ∷ 9 ∷ 0 ∷ 9 ∷ 11 ∷ 0 ∷ 9 ∷ 13 ∷ 13 ∷ 0 ∷ 0
    ∷ 13 ∷ 39 ∷ 39 ∷ 0 ∷ 0 ∷ 39 ∷ 49 ∷ 49 ∷ 0 ∷ 0 ∷ 49 ∷ 37 ∷ 37 ∷ 0 ∷ 0 ∷ 37 ∷ 35 ∷ 35 ∷ 0 ∷ 0 ∷ 35
    ∷ 33 ∷ 33 ∷ 0 ∷ 0 ∷ 33 ∷ 57 ∷ 57 ∷ 0 ∷ 57 ∷ 0 ∷ 57 ∷ 57 ∷ 57 ∷ 0 ∷ 57 ∷ 57 ∷ 0 ∷ 57 ∷ 57 ∷ 0
    ∷ 57 ∷ 57 ∷ 0 ∷ 61 ∷ 57 ∷ 61 ∷ 0 ∷ 61 ∷ 57 ∷ 21 ∷ 21 ∷ 0 ∷ 21 ∷ 0 ∷ 21 ∷ 21 ∷ 21 ∷ 21 ∷ 0 ∷ 21
    ∷ 0 ∷ 21 ∷ 21 ∷ 0 ∷ 21 ∷ 21 ∷ 0 ∷ 21 ∷ 21 ∷ 0 ∷ 21 ∷ 21 ∷ 0 ∷ 21 ∷ 21 ∷ 21 ∷ 0 ∷ 21 ∷ 21 ∷ 21
    ∷ 0 ∷ 21 ∷ 21 ∷ 21 ∷ 0 ∷ 21 ∷ 21 ∷ 0 ∷ 21 ∷ 21 ∷ 0 ∷ 21 ∷ 21 ∷ 0 ∷ 21 ∷ 21 ∷ 0 ∷ 21 ∷ 21 ∷ 0
    ∷ 21 ∷ 21 ∷ 0 ∷ 21 ∷ 21 ∷ 0 ∷ 21 ∷ 21 ∷ 0 ∷ 21 ∷ 21 ∷ 0 ∷ 21 ∷ 21 ∷ 0 ∷ 21 ∷ 21 ∷ 0 ∷ 21 ∷ 21
    ∷ 0 ∷ 21 ∷ 21 ∷ 0 ∷ 15 ∷ 21 ∷ 15 ∷ 0 ∷ 15 ∷ 21 ∷ 0 ∷ 15 ∷ 0 ∷ 21 ∷ 21 ∷ 0 ∷ 21 ∷ 21 ∷ 0 ∷ 21
    ∷ 21 ∷ 0 ∷ 21 ∷ 21 ∷ 0 ∷ 21 ∷ 21 ∷ 0 ∷ 21 ∷ 21 ∷ 0 ∷ 21 ∷ 21 ∷ 0 ∷ 21 ∷ 21 ∷ 0 ∷ 21 ∷ 21 ∷ 0
    ∷ 21 ∷ 21 ∷ 0 ∷ 17 ∷ 21 ∷ 17 ∷ 0 ∷ 17 ∷ 21 ∷ 0 ∷ 17 ∷ 19 ∷ 19 ∷ 0 ∷ 0 ∷ 19 ∷ 41 ∷ 41 ∷ 0 ∷ 0
    ∷ 41 ∷ 51 ∷ 51 ∷ 0 ∷ 0 ∷ 51 ∷ 29 ∷ 29 ∷ 0 ∷ 0 ∷ 29 ∷ 5 ∷ 5 ∷ 0 ∷ 0 ∷ 5 ∷ 0 ∷ 59 ∷ 27 ∷ 27 ∷ 0
    ∷ 0 ∷ 27 ∷ 47 ∷ 47 ∷ 0 ∷ 0 ∷ 47 ∷ 31 ∷ 31 ∷ 0 ∷ 0 ∷ 31 ∷ 3 ∷ 3 ∷ 0 ∷ 0 ∷ 3 ∷ []
