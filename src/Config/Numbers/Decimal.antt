-- ===== src/Config/Numbers/Decimal.antt =====
-- Decimal numerals without leading zeros, and what the parsers make of them.
use fastiron_tofu.Prelude.{
  append-nil, ℕ, zero, suc, ◌+◌, ◌-◌, ◌*◌, ◌/◌, ◌%◌, ◌≤◌, ◌<◌, ◌≡◌, refl, sym, ◌∙◌, ap, Bool, true,
  false, ◌&&◌, [], ◌∷◌, ◌++◌, append_assoc, some, Bytes, leb, ltb, if◌then◌else◌, arith, Bool-cases,
  inl, inr,
}
use fastiron_tofu.Config.Numbers.{is_digit, decimal_onto}

-- strconv.FormatUint(n, 10). The fuel bounds the digits: more than n is enough.
pub digits_of : ℕ → ℕ → Bytes
digits_of zero n = []
digits_of (suc fuel) n =
    let front = digits_of fuel (n / 10) in
    if ltb n 10 then (b'0' + n) ∷ [] else front ++ (b'0' + n % 10) ∷ []

unfoldable pub format_uint : ℕ → Bytes
unfolding digits_of
format_uint n = digits_of (suc n) n

-- The fuel does not matter.
digits_of-fuel : (f g n : ℕ) → n < f → n < g → digits_of f n ≡ digits_of g n
unfolding digits_of
digits_of-fuel zero g n h k = absurd (omega arith)
digits_of-fuel (suc f) zero n h k = absurd (omega arith)
digits_of-fuel (suc f) (suc g) n h k = elim (Bool-cases (ltb n 10)) [
  | inl small ↦ rw small refl
  | inr large ↦ rw large (
      ap (λ x. x ++ (b'0' + n % 10) ∷ [])
        (digits_of-fuel f g (n / 10) (ground arith) (ground arith)))
]

-- One more digit at the end.
pub format_uint-snoc :
    (n d : ℕ) → 1 ≤ n → d < 10 → format_uint (n * 10 + d) ≡ format_uint n ++ (b'0' + d) ∷ []
unfolding format_uint
format_uint-snoc n d pos small =
    let large : ltb (n * 10 + d) 10 ≡ false = ground arith in
    let front : (n * 10 + d) / 10 ≡ n = omega arith in
    let last : (n * 10 + d) % 10 ≡ d = omega arith in
    rw (digits_of, large, front, last)
      (ap (λ x. x ++ (b'0' + d) ∷ [])
        (digits_of-fuel (n * 10 + d) (suc n) n (omega arith) (omega arith)))

pub format_uint-digit : (d : ℕ) → d < 10 → format_uint d ≡ (b'0' + d) ∷ []
unfolding format_uint
format_uint-digit d small = let h : ltb d 10 ≡ true = ground arith in rw (digits_of, h) refl

some-injective {ℓ} : {A : Type ℓ} {a b : A} → some a ≡ some b → a ≡ b
some-injective e = cc

decimal_onto-cons :
    (acc c : ℕ) (cs : Bytes) {n : ℕ}
    → decimal_onto acc (c ∷ cs) ≡ some n
    → (is_digit c ≡ true) × (decimal_onto (acc * 10 + (c - b'0')) cs ≡ some n)
unfolding decimal_onto
decimal_onto-cons acc c cs e = ground arith

decimal_onto-digit :
    (acc d : ℕ) (rest : Bytes)
    → d < 10
    → decimal_onto acc ((b'0' + d) ∷ rest) ≡ decimal_onto (acc * 10 + d) rest
unfolding decimal_onto
decimal_onto-digit acc d rest small =
    let digit : is_digit (b'0' + d) ≡ true = ground arith in
    let value : b'0' + d - b'0' ≡ d = omega arith in rw (digit, value) refl

-- A run of digits, behind a number that is not 0.
pub format_uint-decimal_onto :
    (acc : ℕ) (cs : Bytes) {n : ℕ}
    → 1 ≤ acc
    → decimal_onto acc cs ≡ some n
    → format_uint n ≡ format_uint acc ++ cs
unfolding decimal_onto
format_uint-decimal_onto acc [] pos e =
    ap format_uint (sym (some-injective e)) ∙ sym (append-nil (format_uint acc))
format_uint-decimal_onto acc (c ∷ cs) pos e =
    let (digit, rest) = decimal_onto-cons acc c cs e in
    let low : c - b'0' < 10 = ground arith in
    let back : b'0' + (c - b'0') ≡ c = ground arith in
    format_uint-decimal_onto (acc * 10 + (c - b'0')) cs (omega arith) rest
    ∙ (ap (λ x. x ++ cs) (format_uint-snoc acc (c - b'0') pos low)
        ∙ (ap (λ d. (format_uint acc ++ d ∷ []) ++ cs) back
            ∙ append_assoc (format_uint acc) (c ∷ []) cs))

-- Strong induction on the number that is printed.
decimal_onto-digits_of :
    (f n : ℕ) (rest : Bytes) → n < f → decimal_onto 0 (digits_of f n ++ rest) ≡ decimal_onto n rest
unfolding digits_of decimal_onto
decimal_onto-digits_of zero n rest h = absurd (omega arith)
decimal_onto-digits_of (suc f) n rest h = elim (Bool-cases (ltb n 10)) [
  | inl small ↦
      let low : n < 10 = ground arith in
      let value : 0 * 10 + n ≡ n = omega arith in
      rw small (decimal_onto-digit 0 n rest low ∙ ap (λ m. decimal_onto m rest) value)
  | inr large ↦
      let last : n % 10 < 10 = omega arith in
      let value : n / 10 * 10 + n % 10 ≡ n = omega arith in
      rw large (
        ap (decimal_onto 0) (append_assoc (digits_of f (n / 10)) ((b'0' + n % 10) ∷ []) rest)
        ∙ (decimal_onto-digits_of f (n / 10) ((b'0' + n % 10) ∷ rest) (ground arith)
            ∙ (decimal_onto-digit (n / 10) (n % 10) rest last
                ∙ ap (λ m. decimal_onto m rest) value)))
]

pub decimal_onto-format_uint : (n : ℕ) → decimal_onto 0 (format_uint n) ≡ some n
unfolding decimal_onto format_uint
decimal_onto-format_uint n =
    ap (decimal_onto 0) (sym (append-nil (digits_of (suc n) n)))
    ∙ decimal_onto-digits_of (suc n) n [] (omega arith)

abbrev pub all_digits : Bytes → Bool
all_digits [] = true
all_digits (c ∷ cs) = is_digit c && all_digits cs

abbrev pub is_nonzero_digit : ℕ → Bool
is_nonzero_digit c = leb b'1' c && leb c b'9'

-- Digits, the first of them not 0.
abbrev pub is_numeral : Bytes → Bool
is_numeral [] = false
is_numeral (c ∷ cs) = is_nonzero_digit c && all_digits cs

decimal_onto-all_digits :
    (acc : ℕ) (cs : Bytes)
    → all_digits cs ≡ true
    → (n : ℕ) × ((decimal_onto acc cs ≡ some n) × (acc ≤ n))
unfolding decimal_onto
decimal_onto-all_digits acc [] h = (acc, (refl, omega arith))
decimal_onto-all_digits acc (c ∷ cs) h =
    let digit : is_digit c ≡ true = ground arith in
    let rest : all_digits cs ≡ true = ground arith in
    let (n, (e, le)) = decimal_onto-all_digits (acc * 10 + (c - b'0')) cs rest in
    (n, (rw digit e, omega (arith, le)))

-- A numeral is the print of its value, which is not 0.
pub is_numeral-value :
    (a : Bytes)
    → is_numeral a ≡ true
    → (n : ℕ) × ((decimal_onto 0 a ≡ some n) × ((1 ≤ n) × (format_uint n ≡ a)))
unfolding decimal_onto
is_numeral-value [] h = ground arith
is_numeral-value (c ∷ cs) h =
    let digit : is_digit c ≡ true = ground arith in
    let rest : all_digits cs ≡ true = ground arith in
    let low : c - b'0' < 10 = ground arith in
    let pos : 1 ≤ 0 * 10 + (c - b'0') = ground arith in
    let back : b'0' + (c - b'0') ≡ c = ground arith in
    let first : 0 * 10 + (c - b'0') ≡ c - b'0' = omega arith in
    let (n, (e, le)) = decimal_onto-all_digits (0 * 10 + (c - b'0')) cs rest in
    (
      n,
      (
        rw digit e,
        (
          omega (arith, le, pos),
          format_uint-decimal_onto (0 * 10 + (c - b'0')) cs pos e
              ∙ (ap (λ m. format_uint m ++ cs) first
                  ∙ (ap (λ x. x ++ cs) (format_uint-digit (c - b'0') low) ∙ ap (λ d. d ∷ cs) back)),
        ),
      ),
    )

all_digits-snoc :
    (cs : Bytes) (d : ℕ) → all_digits cs ≡ true → d < 10 → all_digits (cs ++ (b'0' + d) ∷ []) ≡ true
all_digits-snoc [] d h small = ground arith
all_digits-snoc (c ∷ cs) d h small =
    let digit : is_digit c ≡ true = ground arith in
    let rest : all_digits cs ≡ true = ground arith in
    rw (digit, all_digits-snoc cs d rest small) refl

is_numeral-snoc :
    (a : Bytes) (d : ℕ) → is_numeral a ≡ true → d < 10 → is_numeral (a ++ (b'0' + d) ∷ []) ≡ true
is_numeral-snoc [] d h small = ground arith
is_numeral-snoc (c ∷ cs) d h small =
    let nonzero : is_nonzero_digit c ≡ true = ground arith in
    let rest : all_digits cs ≡ true = ground arith in
    rw (nonzero, all_digits-snoc cs d rest small) refl

pub format_uint-is_numeral : (f n : ℕ) → 1 ≤ n → n < f → is_numeral (digits_of f n) ≡ true
unfolding digits_of
format_uint-is_numeral zero n pos h = absurd (omega arith)
format_uint-is_numeral (suc f) n pos h = elim (Bool-cases (ltb n 10)) [
  | inl small ↦ rw small (ground arith)
  | inr large ↦ rw large (
      is_numeral-snoc (digits_of f (n / 10)) (n % 10)
        (format_uint-is_numeral f (n / 10) (ground arith) (ground arith)) (omega arith))
]
