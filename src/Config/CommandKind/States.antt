-- ===== src/Config/CommandKind/States.antt =====
-- internal/config/command_parser.go: the tables of the machine `command` that a state indexes.
use fastiron_tofu.Prelude.{ℕ, List, [], ◌∷◌}

abbrev pub command_key_offsets : List ℕ
command_key_offsets =
    0 ∷ 0 ∷ 14 ∷ 15 ∷ 16 ∷ 17 ∷ 18 ∷ 19 ∷ 20 ∷ 21 ∷ 22 ∷ 23 ∷ 24 ∷ 25 ∷ 27 ∷ 30 ∷ 31 ∷ 32 ∷ 33 ∷ 34
    ∷ 36 ∷ 37 ∷ 38 ∷ 39 ∷ 40 ∷ 41 ∷ 42 ∷ 43 ∷ 44 ∷ 45 ∷ 46 ∷ 47 ∷ 48 ∷ 49 ∷ 50 ∷ 51 ∷ 52 ∷ 53 ∷ 54
    ∷ 56 ∷ 58 ∷ 59 ∷ 60 ∷ 61 ∷ 63 ∷ 66 ∷ 67 ∷ 68 ∷ 69 ∷ 70 ∷ 71 ∷ 72 ∷ 73 ∷ 74 ∷ 75 ∷ 76 ∷ 79 ∷ 86
    ∷ 87 ∷ 88 ∷ 89 ∷ 90 ∷ 91 ∷ 92 ∷ 93 ∷ 94 ∷ 95 ∷ 96 ∷ 97 ∷ 98 ∷ 100 ∷ 103 ∷ 104 ∷ 105 ∷ 106 ∷ 107
    ∷ 108 ∷ 109 ∷ 110 ∷ 111 ∷ 112 ∷ 113 ∷ 114 ∷ 115 ∷ 116 ∷ 117 ∷ 118 ∷ 119 ∷ 120 ∷ 121 ∷ 122 ∷ 123
    ∷ 124 ∷ 125 ∷ 126 ∷ 127 ∷ 128 ∷ 129 ∷ 130 ∷ 131 ∷ 132 ∷ 134 ∷ 138 ∷ 139 ∷ 140 ∷ 141 ∷ 142 ∷ 144
    ∷ 145 ∷ 146 ∷ 147 ∷ 149 ∷ 154 ∷ 155 ∷ 156 ∷ 157 ∷ 158 ∷ 159 ∷ 161 ∷ 166 ∷ 167 ∷ 168 ∷ 169 ∷ 170
    ∷ 171 ∷ 172 ∷ 173 ∷ 174 ∷ 175 ∷ 176 ∷ 178 ∷ 181 ∷ 182 ∷ 183 ∷ 184 ∷ 185 ∷ 186 ∷ 187 ∷ 188 ∷ 189
    ∷ 190 ∷ 192 ∷ 195 ∷ 196 ∷ 197 ∷ 198 ∷ 199 ∷ 200 ∷ 201 ∷ 202 ∷ 203 ∷ 204 ∷ 205 ∷ 206 ∷ 207 ∷ 208
    ∷ 209 ∷ 210 ∷ 212 ∷ 213 ∷ 215 ∷ 218 ∷ 219 ∷ 220 ∷ 221 ∷ 222 ∷ 223 ∷ 224 ∷ 225 ∷ 226 ∷ 228 ∷ 233
    ∷ 234 ∷ 235 ∷ 236 ∷ 238 ∷ 239 ∷ 240 ∷ 241 ∷ 242 ∷ 243 ∷ 244 ∷ 245 ∷ 246 ∷ 247 ∷ 248 ∷ 249 ∷ 250
    ∷ 251 ∷ 252 ∷ 253 ∷ 254 ∷ 255 ∷ 256 ∷ 257 ∷ 258 ∷ 259 ∷ 260 ∷ 261 ∷ 263 ∷ 264 ∷ 265 ∷ 267 ∷ 268
    ∷ 269 ∷ 270 ∷ 271 ∷ 272 ∷ 273 ∷ 274 ∷ 275 ∷ 276 ∷ 277 ∷ 278 ∷ 279 ∷ 280 ∷ 281 ∷ 282 ∷ 283 ∷ 284
    ∷ 285 ∷ 286 ∷ 287 ∷ 288 ∷ 290 ∷ 293 ∷ 294 ∷ 295 ∷ 296 ∷ 299 ∷ 300 ∷ 301 ∷ 302 ∷ 303 ∷ 304 ∷ 305
    ∷ 306 ∷ 307 ∷ 308 ∷ 309 ∷ 310 ∷ 311 ∷ 312 ∷ 313 ∷ 314 ∷ 315 ∷ 316 ∷ 317 ∷ 318 ∷ 319 ∷ 320 ∷ 321
    ∷ 323 ∷ 324 ∷ 325 ∷ 326 ∷ 327 ∷ 328 ∷ 330 ∷ 333 ∷ 334 ∷ 335 ∷ 336 ∷ 337 ∷ 338 ∷ 339 ∷ 340 ∷ 341
    ∷ 342 ∷ 343 ∷ 344 ∷ 345 ∷ 346 ∷ 349 ∷ 350 ∷ 351 ∷ 352 ∷ 353 ∷ 354 ∷ 355 ∷ 356 ∷ 357 ∷ 358 ∷ 359
    ∷ 360 ∷ 362 ∷ 365 ∷ 366 ∷ 367 ∷ 368 ∷ 369 ∷ 370 ∷ 371 ∷ 372 ∷ 373 ∷ 374 ∷ 376 ∷ 377 ∷ 379 ∷ 380
    ∷ 381 ∷ 383 ∷ 384 ∷ 386 ∷ 390 ∷ 391 ∷ 393 ∷ 395 ∷ 397 ∷ 401 ∷ 402 ∷ 404 ∷ 406 ∷ 408 ∷ 411 ∷ 413
    ∷ 414 ∷ 415 ∷ 417 ∷ 418 ∷ 420 ∷ 421 ∷ 423 ∷ 427 ∷ 428 ∷ 430 ∷ 432 ∷ 434 ∷ 437 ∷ 438 ∷ 440 ∷ 441
    ∷ 443 ∷ 444 ∷ 446 ∷ 447 ∷ 449 ∷ 450 ∷ 452 ∷ 453 ∷ 455 ∷ 456 ∷ 458 ∷ 462 ∷ 464 ∷ 466 ∷ 468 ∷ 470
    ∷ 473 ∷ 475 ∷ 480 ∷ 481 ∷ 483 ∷ 485 ∷ 487 ∷ 489 ∷ 491 ∷ 494 ∷ 498 ∷ 500 ∷ 502 ∷ 504 ∷ 506 ∷ 508
    ∷ 510 ∷ 512 ∷ 514 ∷ 516 ∷ 518 ∷ 520 ∷ 522 ∷ 524 ∷ 526 ∷ 529 ∷ 530 ∷ 532 ∷ 534 ∷ 536 ∷ 538 ∷ 540
    ∷ 542 ∷ 544 ∷ 546 ∷ 548 ∷ 550 ∷ 552 ∷ 555 ∷ 556 ∷ 558 ∷ 559 ∷ 561 ∷ 562 ∷ 564 ∷ 565 ∷ 567 ∷ 568
    ∷ 570 ∷ 571 ∷ 572 ∷ 574 ∷ 575 ∷ 577 ∷ 578 ∷ 580 ∷ 581 ∷ 583 ∷ []

abbrev pub command_single_lengths : List ℕ
command_single_lengths =
    0 ∷ 14 ∷ 1 ∷ 1 ∷ 1 ∷ 1 ∷ 1 ∷ 1 ∷ 1 ∷ 1 ∷ 1 ∷ 1 ∷ 1 ∷ 2 ∷ 3 ∷ 1 ∷ 1 ∷ 1 ∷ 1 ∷ 2 ∷ 1 ∷ 1 ∷ 1 ∷ 1
    ∷ 1 ∷ 1 ∷ 1 ∷ 1 ∷ 1 ∷ 1 ∷ 1 ∷ 1 ∷ 1 ∷ 1 ∷ 1 ∷ 1 ∷ 1 ∷ 1 ∷ 2 ∷ 2 ∷ 1 ∷ 1 ∷ 1 ∷ 2 ∷ 3 ∷ 1 ∷ 1 ∷ 1
    ∷ 1 ∷ 1 ∷ 1 ∷ 1 ∷ 1 ∷ 1 ∷ 1 ∷ 3 ∷ 7 ∷ 1 ∷ 1 ∷ 1 ∷ 1 ∷ 1 ∷ 1 ∷ 1 ∷ 1 ∷ 1 ∷ 1 ∷ 1 ∷ 1 ∷ 2 ∷ 3 ∷ 1
    ∷ 1 ∷ 1 ∷ 1 ∷ 1 ∷ 1 ∷ 1 ∷ 1 ∷ 1 ∷ 1 ∷ 1 ∷ 1 ∷ 1 ∷ 1 ∷ 1 ∷ 1 ∷ 1 ∷ 1 ∷ 1 ∷ 1 ∷ 1 ∷ 1 ∷ 1 ∷ 1 ∷ 1
    ∷ 1 ∷ 1 ∷ 1 ∷ 1 ∷ 2 ∷ 4 ∷ 1 ∷ 1 ∷ 1 ∷ 1 ∷ 2 ∷ 1 ∷ 1 ∷ 1 ∷ 2 ∷ 5 ∷ 1 ∷ 1 ∷ 1 ∷ 1 ∷ 1 ∷ 2 ∷ 5 ∷ 1
    ∷ 1 ∷ 1 ∷ 1 ∷ 1 ∷ 1 ∷ 1 ∷ 1 ∷ 1 ∷ 1 ∷ 2 ∷ 3 ∷ 1 ∷ 1 ∷ 1 ∷ 1 ∷ 1 ∷ 1 ∷ 1 ∷ 1 ∷ 1 ∷ 2 ∷ 3 ∷ 1 ∷ 1
    ∷ 1 ∷ 1 ∷ 1 ∷ 1 ∷ 1 ∷ 1 ∷ 1 ∷ 1 ∷ 1 ∷ 1 ∷ 1 ∷ 1 ∷ 1 ∷ 2 ∷ 1 ∷ 2 ∷ 3 ∷ 1 ∷ 1 ∷ 1 ∷ 1 ∷ 1 ∷ 1 ∷ 1
    ∷ 1 ∷ 2 ∷ 5 ∷ 1 ∷ 1 ∷ 1 ∷ 2 ∷ 1 ∷ 1 ∷ 1 ∷ 1 ∷ 1 ∷ 1 ∷ 1 ∷ 1 ∷ 1 ∷ 1 ∷ 1 ∷ 1 ∷ 1 ∷ 1 ∷ 1 ∷ 1 ∷ 1
    ∷ 1 ∷ 1 ∷ 1 ∷ 1 ∷ 1 ∷ 1 ∷ 2 ∷ 1 ∷ 1 ∷ 2 ∷ 1 ∷ 1 ∷ 1 ∷ 1 ∷ 1 ∷ 1 ∷ 1 ∷ 1 ∷ 1 ∷ 1 ∷ 1 ∷ 1 ∷ 1 ∷ 1
    ∷ 1 ∷ 1 ∷ 1 ∷ 1 ∷ 1 ∷ 1 ∷ 1 ∷ 2 ∷ 3 ∷ 1 ∷ 1 ∷ 1 ∷ 3 ∷ 1 ∷ 1 ∷ 1 ∷ 1 ∷ 1 ∷ 1 ∷ 1 ∷ 1 ∷ 1 ∷ 1 ∷ 1
    ∷ 1 ∷ 1 ∷ 1 ∷ 1 ∷ 1 ∷ 1 ∷ 1 ∷ 1 ∷ 1 ∷ 1 ∷ 1 ∷ 2 ∷ 1 ∷ 1 ∷ 1 ∷ 1 ∷ 1 ∷ 2 ∷ 3 ∷ 1 ∷ 1 ∷ 1 ∷ 1 ∷ 1
    ∷ 1 ∷ 1 ∷ 1 ∷ 1 ∷ 1 ∷ 1 ∷ 1 ∷ 1 ∷ 3 ∷ 1 ∷ 1 ∷ 1 ∷ 1 ∷ 1 ∷ 1 ∷ 1 ∷ 1 ∷ 1 ∷ 1 ∷ 1 ∷ 2 ∷ 3 ∷ 1 ∷ 1
    ∷ 1 ∷ 1 ∷ 1 ∷ 1 ∷ 1 ∷ 1 ∷ 1 ∷ 2 ∷ 1 ∷ 2 ∷ 1 ∷ 1 ∷ 2 ∷ 1 ∷ 2 ∷ 4 ∷ 1 ∷ 2 ∷ 2 ∷ 2 ∷ 4 ∷ 1 ∷ 2 ∷ 2
    ∷ 2 ∷ 3 ∷ 2 ∷ 1 ∷ 1 ∷ 2 ∷ 1 ∷ 2 ∷ 1 ∷ 2 ∷ 4 ∷ 1 ∷ 2 ∷ 2 ∷ 2 ∷ 3 ∷ 1 ∷ 2 ∷ 1 ∷ 2 ∷ 1 ∷ 2 ∷ 1 ∷ 2
    ∷ 1 ∷ 2 ∷ 1 ∷ 2 ∷ 1 ∷ 2 ∷ 4 ∷ 2 ∷ 2 ∷ 2 ∷ 2 ∷ 3 ∷ 2 ∷ 5 ∷ 1 ∷ 2 ∷ 2 ∷ 2 ∷ 2 ∷ 2 ∷ 3 ∷ 4 ∷ 2 ∷ 2
    ∷ 2 ∷ 2 ∷ 2 ∷ 2 ∷ 2 ∷ 2 ∷ 2 ∷ 2 ∷ 2 ∷ 2 ∷ 2 ∷ 2 ∷ 3 ∷ 1 ∷ 2 ∷ 2 ∷ 2 ∷ 2 ∷ 2 ∷ 2 ∷ 2 ∷ 2 ∷ 2 ∷ 2
    ∷ 2 ∷ 3 ∷ 1 ∷ 2 ∷ 1 ∷ 2 ∷ 1 ∷ 2 ∷ 1 ∷ 2 ∷ 1 ∷ 2 ∷ 1 ∷ 1 ∷ 2 ∷ 1 ∷ 2 ∷ 1 ∷ 2 ∷ 1 ∷ 2 ∷ 1 ∷ []

abbrev pub command_range_lengths : List ℕ
command_range_lengths =
    0 ∷ 0 ∷ 0 ∷ 0 ∷ 0 ∷ 0 ∷ 0 ∷ 0 ∷ 0 ∷ 0 ∷ 0 ∷ 0 ∷ 0 ∷ 0 ∷ 0 ∷ 0 ∷ 0 ∷ 0 ∷ 0 ∷ 0 ∷ 0 ∷ 0 ∷ 0 ∷ 0
    ∷ 0 ∷ 0 ∷ 0 ∷ 0 ∷ 0 ∷ 0 ∷ 0 ∷ 0 ∷ 0 ∷ 0 ∷ 0 ∷ 0 ∷ 0 ∷ 0 ∷ 0 ∷ 0 ∷ 0 ∷ 0 ∷ 0 ∷ 0 ∷ 0 ∷ 0 ∷ 0 ∷ 0
    ∷ 0 ∷ 0 ∷ 0 ∷ 0 ∷ 0 ∷ 0 ∷ 0 ∷ 0 ∷ 0 ∷ 0 ∷ 0 ∷ 0 ∷ 0 ∷ 0 ∷ 0 ∷ 0 ∷ 0 ∷ 0 ∷ 0 ∷ 0 ∷ 0 ∷ 0 ∷ 0 ∷ 0
    ∷ 0 ∷ 0 ∷ 0 ∷ 0 ∷ 0 ∷ 0 ∷ 0 ∷ 0 ∷ 0 ∷ 0 ∷ 0 ∷ 0 ∷ 0 ∷ 0 ∷ 0 ∷ 0 ∷ 0 ∷ 0 ∷ 0 ∷ 0 ∷ 0 ∷ 0 ∷ 0 ∷ 0
    ∷ 0 ∷ 0 ∷ 0 ∷ 0 ∷ 0 ∷ 0 ∷ 0 ∷ 0 ∷ 0 ∷ 0 ∷ 0 ∷ 0 ∷ 0 ∷ 0 ∷ 0 ∷ 0 ∷ 0 ∷ 0 ∷ 0 ∷ 0 ∷ 0 ∷ 0 ∷ 0 ∷ 0
    ∷ 0 ∷ 0 ∷ 0 ∷ 0 ∷ 0 ∷ 0 ∷ 0 ∷ 0 ∷ 0 ∷ 0 ∷ 0 ∷ 0 ∷ 0 ∷ 0 ∷ 0 ∷ 0 ∷ 0 ∷ 0 ∷ 0 ∷ 0 ∷ 0 ∷ 0 ∷ 0 ∷ 0
    ∷ 0 ∷ 0 ∷ 0 ∷ 0 ∷ 0 ∷ 0 ∷ 0 ∷ 0 ∷ 0 ∷ 0 ∷ 0 ∷ 0 ∷ 0 ∷ 0 ∷ 0 ∷ 0 ∷ 0 ∷ 0 ∷ 0 ∷ 0 ∷ 0 ∷ 0 ∷ 0 ∷ 0
    ∷ 0 ∷ 0 ∷ 0 ∷ 0 ∷ 0 ∷ 0 ∷ 0 ∷ 0 ∷ 0 ∷ 0 ∷ 0 ∷ 0 ∷ 0 ∷ 0 ∷ 0 ∷ 0 ∷ 0 ∷ 0 ∷ 0 ∷ 0 ∷ 0 ∷ 0 ∷ 0 ∷ 0
    ∷ 0 ∷ 0 ∷ 0 ∷ 0 ∷ 0 ∷ 0 ∷ 0 ∷ 0 ∷ 0 ∷ 0 ∷ 0 ∷ 0 ∷ 0 ∷ 0 ∷ 0 ∷ 0 ∷ 0 ∷ 0 ∷ 0 ∷ 0 ∷ 0 ∷ 0 ∷ 0 ∷ 0
    ∷ 0 ∷ 0 ∷ 0 ∷ 0 ∷ 0 ∷ 0 ∷ 0 ∷ 0 ∷ 0 ∷ 0 ∷ 0 ∷ 0 ∷ 0 ∷ 0 ∷ 0 ∷ 0 ∷ 0 ∷ 0 ∷ 0 ∷ 0 ∷ 0 ∷ 0 ∷ 0 ∷ 0
    ∷ 0 ∷ 0 ∷ 0 ∷ 0 ∷ 0 ∷ 0 ∷ 0 ∷ 0 ∷ 0 ∷ 0 ∷ 0 ∷ 0 ∷ 0 ∷ 0 ∷ 0 ∷ 0 ∷ 0 ∷ 0 ∷ 0 ∷ 0 ∷ 0 ∷ 0 ∷ 0 ∷ 0
    ∷ 0 ∷ 0 ∷ 0 ∷ 0 ∷ 0 ∷ 0 ∷ 0 ∷ 0 ∷ 0 ∷ 0 ∷ 0 ∷ 0 ∷ 0 ∷ 0 ∷ 0 ∷ 0 ∷ 0 ∷ 0 ∷ 0 ∷ 0 ∷ 0 ∷ 0 ∷ 0 ∷ 0
    ∷ 0 ∷ 0 ∷ 0 ∷ 0 ∷ 0 ∷ 0 ∷ 0 ∷ 0 ∷ 0 ∷ 0 ∷ 0 ∷ 0 ∷ 0 ∷ 0 ∷ 0 ∷ 0 ∷ 0 ∷ 0 ∷ 0 ∷ 0 ∷ 0 ∷ 0 ∷ 0 ∷ 0
    ∷ 0 ∷ 0 ∷ 0 ∷ 0 ∷ 0 ∷ 0 ∷ 0 ∷ 0 ∷ 0 ∷ 0 ∷ 0 ∷ 0 ∷ 0 ∷ 0 ∷ 0 ∷ 0 ∷ 0 ∷ 0 ∷ 0 ∷ 0 ∷ 0 ∷ 0 ∷ 0 ∷ 0
    ∷ 0 ∷ 0 ∷ 0 ∷ 0 ∷ 0 ∷ 0 ∷ 0 ∷ 0 ∷ 0 ∷ 0 ∷ 0 ∷ 0 ∷ 0 ∷ 0 ∷ 0 ∷ 0 ∷ 0 ∷ 0 ∷ 0 ∷ 0 ∷ 0 ∷ 0 ∷ 0 ∷ 0
    ∷ 0 ∷ 0 ∷ 0 ∷ 0 ∷ 0 ∷ 0 ∷ 0 ∷ 0 ∷ 0 ∷ 0 ∷ 0 ∷ 0 ∷ 0 ∷ 0 ∷ 0 ∷ 0 ∷ 0 ∷ 0 ∷ 0 ∷ 0 ∷ 0 ∷ 0 ∷ 0 ∷ 0
    ∷ 0 ∷ 0 ∷ 0 ∷ 0 ∷ 0 ∷ 0 ∷ 0 ∷ 0 ∷ 0 ∷ 0 ∷ 0 ∷ 0 ∷ 0 ∷ 0 ∷ 0 ∷ 0 ∷ 0 ∷ 0 ∷ 0 ∷ 0 ∷ 0 ∷ 0 ∷ []

abbrev pub command_index_offsets : List ℕ
command_index_offsets =
    0 ∷ 0 ∷ 15 ∷ 17 ∷ 19 ∷ 21 ∷ 23 ∷ 25 ∷ 27 ∷ 29 ∷ 31 ∷ 33 ∷ 35 ∷ 37 ∷ 40 ∷ 44 ∷ 46 ∷ 48 ∷ 50 ∷ 52
    ∷ 55 ∷ 57 ∷ 59 ∷ 61 ∷ 63 ∷ 65 ∷ 67 ∷ 69 ∷ 71 ∷ 73 ∷ 75 ∷ 77 ∷ 79 ∷ 81 ∷ 83 ∷ 85 ∷ 87 ∷ 89 ∷ 91
    ∷ 94 ∷ 97 ∷ 99 ∷ 101 ∷ 103 ∷ 106 ∷ 110 ∷ 112 ∷ 114 ∷ 116 ∷ 118 ∷ 120 ∷ 122 ∷ 124 ∷ 126 ∷ 128
    ∷ 130 ∷ 134 ∷ 142 ∷ 144 ∷ 146 ∷ 148 ∷ 150 ∷ 152 ∷ 154 ∷ 156 ∷ 158 ∷ 160 ∷ 162 ∷ 164 ∷ 166 ∷ 169
    ∷ 173 ∷ 175 ∷ 177 ∷ 179 ∷ 181 ∷ 183 ∷ 185 ∷ 187 ∷ 189 ∷ 191 ∷ 193 ∷ 195 ∷ 197 ∷ 199 ∷ 201 ∷ 203
    ∷ 205 ∷ 207 ∷ 209 ∷ 211 ∷ 213 ∷ 215 ∷ 217 ∷ 219 ∷ 221 ∷ 223 ∷ 225 ∷ 227 ∷ 229 ∷ 231 ∷ 234 ∷ 239
    ∷ 241 ∷ 243 ∷ 245 ∷ 247 ∷ 250 ∷ 252 ∷ 254 ∷ 256 ∷ 259 ∷ 265 ∷ 267 ∷ 269 ∷ 271 ∷ 273 ∷ 275 ∷ 278
    ∷ 284 ∷ 286 ∷ 288 ∷ 290 ∷ 292 ∷ 294 ∷ 296 ∷ 298 ∷ 300 ∷ 302 ∷ 304 ∷ 307 ∷ 311 ∷ 313 ∷ 315 ∷ 317
    ∷ 319 ∷ 321 ∷ 323 ∷ 325 ∷ 327 ∷ 329 ∷ 332 ∷ 336 ∷ 338 ∷ 340 ∷ 342 ∷ 344 ∷ 346 ∷ 348 ∷ 350 ∷ 352
    ∷ 354 ∷ 356 ∷ 358 ∷ 360 ∷ 362 ∷ 364 ∷ 366 ∷ 369 ∷ 371 ∷ 374 ∷ 378 ∷ 380 ∷ 382 ∷ 384 ∷ 386 ∷ 388
    ∷ 390 ∷ 392 ∷ 394 ∷ 397 ∷ 403 ∷ 405 ∷ 407 ∷ 409 ∷ 412 ∷ 414 ∷ 416 ∷ 418 ∷ 420 ∷ 422 ∷ 424 ∷ 426
    ∷ 428 ∷ 430 ∷ 432 ∷ 434 ∷ 436 ∷ 438 ∷ 440 ∷ 442 ∷ 444 ∷ 446 ∷ 448 ∷ 450 ∷ 452 ∷ 454 ∷ 456 ∷ 458
    ∷ 461 ∷ 463 ∷ 465 ∷ 468 ∷ 470 ∷ 472 ∷ 474 ∷ 476 ∷ 478 ∷ 480 ∷ 482 ∷ 484 ∷ 486 ∷ 488 ∷ 490 ∷ 492
    ∷ 494 ∷ 496 ∷ 498 ∷ 500 ∷ 502 ∷ 504 ∷ 506 ∷ 508 ∷ 510 ∷ 513 ∷ 517 ∷ 519 ∷ 521 ∷ 523 ∷ 527 ∷ 529
    ∷ 531 ∷ 533 ∷ 535 ∷ 537 ∷ 539 ∷ 541 ∷ 543 ∷ 545 ∷ 547 ∷ 549 ∷ 551 ∷ 553 ∷ 555 ∷ 557 ∷ 559 ∷ 561
    ∷ 563 ∷ 565 ∷ 567 ∷ 569 ∷ 571 ∷ 574 ∷ 576 ∷ 578 ∷ 580 ∷ 582 ∷ 584 ∷ 587 ∷ 591 ∷ 593 ∷ 595 ∷ 597
    ∷ 599 ∷ 601 ∷ 603 ∷ 605 ∷ 607 ∷ 609 ∷ 611 ∷ 613 ∷ 615 ∷ 617 ∷ 621 ∷ 623 ∷ 625 ∷ 627 ∷ 629 ∷ 631
    ∷ 633 ∷ 635 ∷ 637 ∷ 639 ∷ 641 ∷ 643 ∷ 646 ∷ 650 ∷ 652 ∷ 654 ∷ 656 ∷ 658 ∷ 660 ∷ 662 ∷ 664 ∷ 666
    ∷ 668 ∷ 671 ∷ 673 ∷ 676 ∷ 678 ∷ 680 ∷ 683 ∷ 685 ∷ 688 ∷ 693 ∷ 695 ∷ 698 ∷ 701 ∷ 704 ∷ 709 ∷ 711
    ∷ 714 ∷ 717 ∷ 720 ∷ 724 ∷ 727 ∷ 729 ∷ 731 ∷ 734 ∷ 736 ∷ 739 ∷ 741 ∷ 744 ∷ 749 ∷ 751 ∷ 754 ∷ 757
    ∷ 760 ∷ 764 ∷ 766 ∷ 769 ∷ 771 ∷ 774 ∷ 776 ∷ 779 ∷ 781 ∷ 784 ∷ 786 ∷ 789 ∷ 791 ∷ 794 ∷ 796 ∷ 799
    ∷ 804 ∷ 807 ∷ 810 ∷ 813 ∷ 816 ∷ 820 ∷ 823 ∷ 829 ∷ 831 ∷ 834 ∷ 837 ∷ 840 ∷ 843 ∷ 846 ∷ 850 ∷ 855
    ∷ 858 ∷ 861 ∷ 864 ∷ 867 ∷ 870 ∷ 873 ∷ 876 ∷ 879 ∷ 882 ∷ 885 ∷ 888 ∷ 891 ∷ 894 ∷ 897 ∷ 901 ∷ 903
    ∷ 906 ∷ 909 ∷ 912 ∷ 915 ∷ 918 ∷ 921 ∷ 924 ∷ 927 ∷ 930 ∷ 933 ∷ 936 ∷ 940 ∷ 942 ∷ 945 ∷ 947 ∷ 950
    ∷ 952 ∷ 955 ∷ 957 ∷ 960 ∷ 962 ∷ 965 ∷ 967 ∷ 969 ∷ 972 ∷ 974 ∷ 977 ∷ 979 ∷ 982 ∷ 984 ∷ 987 ∷ []
