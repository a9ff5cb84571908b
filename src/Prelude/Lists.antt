-- ===== src/Prelude/Lists.antt =====
-- Lists measured and indexed by native numbers, and filtered by Boolean tests.
use Prim.Native.Nat.{ℕ, zero, suc, ◌+◌, ◌-◌, ◌<◌}
use mathlib.Core.Path.{◌≡◌, refl, ap}
use mathlib.Core.Logic.{◌⊎◌, inl, inr}
use mathlib.Core.Bool.{Bool}
use mathlib.Core.List.{List, [], ◌∷◌, ◌++◌}
use mathlib.Core.Option.{Option, none, some}
use native.Mathlib.Omega.{arith}
use fastiron_tofu.Prelude.Tests.{if◌then◌else◌}

module _ {ℓ} {A : Type ℓ} where
  abbrev pub length : List A → ℕ
  length [] = 0
  length (x ∷ xs) = suc (length xs)

  abbrev pub get_elem? : List A → ℕ → Option A
  get_elem? [] i = none
  get_elem? (x ∷ xs) zero = some x
  get_elem? (x ∷ xs) (suc i) = get_elem? xs i

  -- Those for which the test holds, in order.
  abbrev pub keep : (A → Bool) → List A → List A
  keep p [] = []
  keep p (x ∷ xs) = if p x then x ∷ keep p xs else keep p xs

  -- A predicate on every member, as a tuple.
  abbrev pub All {κ} : (A → Type κ) → List A → Type κ
  All P [] = Unit
  All P (x ∷ xs) = P x × All P xs

  pub length-append : (xs ys : List A) → length (xs ++ ys) ≡ length xs + length ys
  length-append [] ys = omega arith
  length-append (x ∷ xs) ys = omega (arith, length-append xs ys)

module _ {ℓ} {A : Type ℓ} where
  pub All-append {κ} : (P : A → Type κ) (xs ys : List A) → All P xs → All P ys → All P (xs ++ ys)
  All-append P [] ys of_xs of_ys = of_ys
  All-append P (x ∷ xs) ys (of_x, of_xs) of_ys = (of_x, All-append P xs ys of_xs of_ys)

  pub keep-append : (p : A → Bool) (xs ys : List A) → keep p (xs ++ ys) ≡ keep p xs ++ keep p ys
  keep-append p [] ys = refl
  keep-append p (x ∷ xs) ys = ground (arith, keep-append p xs ys)

  pub get_elem?-append :
      (xs ys : List A) (i : ℕ) → i < length xs → get_elem? (xs ++ ys) i ≡ get_elem? xs i
  get_elem?-append [] ys i h = elim h [ ]
  get_elem?-append (x ∷ xs) ys zero h = refl
  get_elem?-append (x ∷ xs) ys (suc i) h = get_elem?-append xs ys i (omega arith)

  pub get_elem?-append_last : (xs : List A) (y : A) → get_elem? (xs ++ y ∷ []) (length xs) ≡ some y
  get_elem?-append_last [] y = refl
  get_elem?-append_last (x ∷ xs) y = get_elem?-append_last xs y

  -- An element of a list with one more at its end.
  pub get_elem?-snoc :
      (xs : List A) (y : A) (i : ℕ) {x : A}
      → get_elem? (xs ++ y ∷ []) i ≡ some x
      → (i ≡ length xs) × (y ≡ x) ⊎ (get_elem? xs i ≡ some x)
  get_elem?-snoc [] y zero h = inl (refl, cc)
  get_elem?-snoc [] y (suc i) h = absurd (ground arith)
  get_elem?-snoc (z ∷ xs) y zero h = inr h
  get_elem?-snoc (z ∷ xs) y (suc i) h = elim (get_elem?-snoc xs y i h) [
    | inl (e, f) ↦ inl (ap suc e, f)
    | inr e ↦ inr e
  ]

  pub get_elem?-lt_length : (xs : List A) (i : ℕ) {x : A} → get_elem? xs i ≡ some x → i < length xs
  get_elem?-lt_length [] i h = absurd (ground arith)
  get_elem?-lt_length (y ∷ xs) zero h = omega arith
  get_elem?-lt_length (y ∷ xs) (suc i) h = omega (arith, get_elem?-lt_length xs i h)

module _ {ℓ} {A : Type ℓ} where
  -- The positions, counted from `i`, at which the test holds.
  abbrev pub places : (A → Bool) → ℕ → List A → List ℕ
  places p i [] = []
  places p i (x ∷ xs) = if p x then i ∷ places p (i + 1) xs else places p (i + 1) xs

  -- The element at a position, or a default beyond the end.
  abbrev pub get_or : List A → ℕ → A → A
  get_or [] i d = d
  get_or (x ∷ xs) zero d = x
  get_or (x ∷ xs) (suc i) d = get_or xs i d

  abbrev pub take : ℕ → List A → List A
  take zero xs = []
  take (suc n) [] = []
  take (suc n) (x ∷ xs) = x ∷ take n xs

  abbrev pub drop : ℕ → List A → List A
  drop zero xs = xs
  drop (suc n) [] = []
  drop (suc n) (x ∷ xs) = drop n xs

  -- `data[start:end]`
  abbrev pub slice : List A → ℕ → ℕ → List A
  slice xs start end = take (end - start) (drop start xs)

  pub drop-append : (xs ys : List A) → drop (length xs) (xs ++ ys) ≡ ys
  drop-append [] ys = refl
  drop-append (x ∷ xs) ys = drop-append xs ys

  pub take-append : (xs ys : List A) → take (length xs) (xs ++ ys) ≡ xs
  take-append [] ys = refl
  take-append (x ∷ xs) ys = ap (◌∷◌ x) (take-append xs ys)

module _ {ℓ} {A : Type ℓ} where
  pub slice-append :
      (xs ys zs : List A) (n m : ℕ)
      → n ≡ length xs
      → m ≡ length xs + length ys
      → slice (xs ++ (ys ++ zs)) n m ≡ ys
  slice-append xs ys zs n m e f =
      let g : m - n ≡ length ys = omega (arith, e, f) in
      rw (g, e, drop-append xs (ys ++ zs)) (take-append ys zs)

module _ {ℓ} {A : Type ℓ} where
  -- A write out of bounds changes nothing.
  abbrev pub set : List A → ℕ → A → List A
  set [] i v = []
  set (x ∷ xs) zero v = v ∷ xs
  set (x ∷ xs) (suc i) v = x ∷ set xs i v

  -- How many elements pass a test.
  abbrev pub count : (A → Bool) → List A → ℕ
  count p [] = 0
  count p (x ∷ xs) = (if p x then 1 else 0) + count p xs

module _ {ℓ} {A : Type ℓ} where
  pub All-map {κ μ} :
      {P : A → Type κ} {Q : A → Type μ} (xs : List A) → ((x : A) → P x → Q x) → All P xs → All Q xs
  All-map [] step every = tt
  All-map (x ∷ xs) step (of_x, of_rest) = (step x of_x, All-map xs step of_rest)

  pub count-append : (p : A → Bool) (xs ys : List A) → count p (xs ++ ys) ≡ count p xs + count p ys
  count-append p [] ys = omega arith
  count-append p (x ∷ xs) ys = omega (arith, count-append p xs ys)

  pub length-places : (p : A → Bool) (i : ℕ) (xs : List A) → length (places p i xs) ≡ count p xs
  length-places p i [] = refl
  length-places p i (x ∷ xs) = ground (arith, length-places p (i + 1) xs)
