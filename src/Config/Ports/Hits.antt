-- ===== src/Config/Ports/Hits.antt =====
-- Distinct numbers in a range that are as many as the range are all of it.
use fastiron_tofu.Prelude.{
  ℕ, zero, suc, ◌+◌, ◌≤◌, ◌<◌, ◌≡◌, subst, refl, Bool, true, false, ◌||◌, List, [], ◌∷◌, All,
  length, ◌==◌, if◌then◌else◌, arith, Bool-cases, inl, inr,
}

abbrev pub has_number : ℕ → List ℕ → Bool
has_number n [] = false
has_number n (x ∷ xs) = x == n || has_number n xs

-- How many numbers from `a` on, `k` of them, are in the list.
abbrev hits : ℕ → ℕ → List ℕ → ℕ
hits a zero xs = 0
hits a (suc k) xs = hits a k xs + (if has_number (a + k) xs then 1 else 0)

hits-nil : (a k : ℕ) → hits a k [] ≡ 0
hits-nil a zero = refl
hits-nil a (suc k) = omega (arith, hits-nil a k)

hits-le : (a k : ℕ) (xs : List ℕ) → hits a k xs ≤ k
hits-le a zero xs = omega arith
hits-le a (suc k) xs = ground (arith, hits-le a k xs)

-- A number outside the range hits nothing, and a new one inside hits once.
hits-outside : (a k x : ℕ) (xs : List ℕ) → a + k ≤ x → hits a k (x ∷ xs) ≡ hits a k xs
hits-outside a zero x xs h = refl
hits-outside a (suc k) x xs h = ground (arith, hits-outside a k x xs)

hits-inside :
    (a k x : ℕ) (xs : List ℕ)
    → a ≤ x
    → x < a + k
    → has_number x xs ≡ false
    → hits a k (x ∷ xs) ≡ hits a k xs + 1
hits-inside a zero x xs lo hi new = absurd (omega arith)
hits-inside a (suc k) x xs lo hi new = elim (Bool-cases (x == a + k)) [
  | inl last ↦
      let e : x ≡ a + k = ground arith in
      ground (arith, hits-outside a k x xs, subst (λ y. has_number y xs ≡ false) e new)
  | inr earlier ↦ ground (arith, hits-inside a k x xs)
]

abbrev pub Distinct : List ℕ → Type 0
Distinct [] = Unit
Distinct (x ∷ xs) = (has_number x xs ≡ false) × Distinct xs

hits-eq-length :
    (a k : ℕ) (xs : List ℕ)
    → Distinct xs
    → All (λ x. (a ≤ x) × (x < a + k)) xs
    → hits a k xs ≡ length xs
hits-eq-length a k [] d h = hits-nil a k
hits-eq-length a k (x ∷ xs) (new, d) ((lo, hi), h) =
    omega (arith, hits-inside a k x xs lo hi new, hits-eq-length a k xs d h)

has_of_hits :
    (a k n : ℕ) (xs : List ℕ) → hits a k xs ≡ k → a ≤ n → n < a + k → has_number n xs ≡ true
has_of_hits a zero n xs h lo hi = absurd (omega arith)
has_of_hits a (suc k) n xs h lo hi = elim (Bool-cases (n == a + k)) [
  | inl last ↦
      let e : a + k ≡ n = ground arith in
      subst (λ y. has_number y xs ≡ true) e (ground (arith, hits-le a k xs))
  | inr earlier ↦ ground (arith, hits-le a k xs, has_of_hits a k n xs)
]

-- The pigeonhole principle in this form.
pub has_number_of_full :
    (a k n : ℕ) (xs : List ℕ)
    → Distinct xs
    → All (λ x. (a ≤ x) × (x < a + k)) xs
    → length xs ≡ k
    → a ≤ n
    → n < a + k
    → has_number n xs ≡ true
has_number_of_full a k n xs d within full lo hi =
    has_of_hits a k n xs (omega (arith, hits-eq-length a k xs d within)) lo hi
