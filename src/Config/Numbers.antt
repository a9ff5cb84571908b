-- ===== src/Config/Numbers.antt =====
-- strconv.ParseUint(…, 10, w) and strconv.ParseInt(…, 10, 64), as internal/config calls them.
pub mod Decimal
use fastiron_tofu.Prelude.{
  ℕ, ◌-◌, ◌+◌, ◌*◌, ◌^◌, Bool, true, false, ◌&&◌, [], ◌∷◌, Option, none, some, Bytes, leb, ltb,
  ◌==◌, if◌then◌else◌,
}

abbrev pub is_digit : ℕ → Bool
is_digit c = leb b'0' c && leb c b'9'

-- The value of a run of decimal digits behind `acc`, or nothing at any other byte.
unfoldable pub decimal_onto : ℕ → Bytes → Option ℕ
decimal_onto acc [] = some acc
decimal_onto acc (c ∷ cs) = if is_digit c then decimal_onto (acc * 10 + (c - b'0')) cs else none

-- The value and whether there was no error: 0 for a text that is no number, the largest value
-- below the limit where the number is too large.
abbrev pub clamp : ℕ → Option ℕ → ℕ × Bool
clamp limit none = (0, false)
clamp limit (some n) = if ltb n limit then (n, true) else (limit - 1, false)

unfoldable pub parse_below : ℕ → Bytes → ℕ × Bool
unfolding decimal_onto
parse_below limit [] = (0, false)
parse_below limit (c ∷ cs) = clamp limit (decimal_onto 0 (c ∷ cs))

abbrev pub u64_limit : ℕ
u64_limit = 2 ^ 64

abbrev pub i64_limit : ℕ
i64_limit = 2 ^ 63

unfoldable pub parse_uint64 : Bytes → ℕ × Bool
unfolding parse_below
parse_uint64 text = parse_below u64_limit text

-- `ParseInt` of a text with the sign `+` or none.
unfoldable pub parse_int64 : Bytes → ℕ × Bool
unfolding parse_below
parse_int64 [] = (0, false)
parse_int64 (c ∷ cs) =
    if c == b'+' then parse_below i64_limit cs else parse_below i64_limit (c ∷ cs)
