-- ===== src/Prelude/Text.antt =====
-- Go strings as lists of bytes: comparison, prefixes and the trimming that the code uses.
use Prim.Native.Char.{code}
use Prim.Native.String.{String}
use Prim.Native.Nat.{ℕ}
use mathlib.Core.Path.{◌≡◌, refl, sym, ap, ◌∙◌}
use mathlib.Core.Logic.{◌↔◌, inl, inr}
use mathlib.Core.Bool.{Bool, true, false, ◌&&◌, ◌||◌}
use mathlib.Core.List.{List, [], ◌∷◌, ◌++◌}
use mathlib.Core.Option.{Option, none, some}
use native.Mathlib.Omega.{arith}
use fastiron_tofu.Prelude.Tests.{==_iff, Bool-cases, ◌==◌, leb, if◌then◌else◌}

abbrev pub Bytes : Type 0
Bytes = List ℕ

-- The bytes of an ASCII literal.
abbrev pub codes : String → Bytes
codes String.[] = []
codes (String.◌∷◌ c s) = code c ∷ codes s

unfoldable pub bytes_eq : Bytes → Bytes → Bool
bytes_eq [] [] = true
bytes_eq (x ∷ xs) (y ∷ ys) = x == y && bytes_eq xs ys
bytes_eq _ _ = false

pub bytes_eq_iff : (a b : Bytes) → (bytes_eq a b ≡ true) ↔ (a ≡ b)
unfolding bytes_eq
bytes_eq_iff (x ∷ a) (y ∷ b) = ground (arith, bytes_eq_iff a b)
bytes_eq_iff _ _ = ground arith

pub bytes_eq_refl : (a : Bytes) → bytes_eq a a ≡ true
bytes_eq_refl a = (bytes_eq_iff a a).1 refl

-- `slices.Equal` on strings.
unfoldable pub texts_eq : List Bytes → List Bytes → Bool
texts_eq [] [] = true
texts_eq (x ∷ xs) (y ∷ ys) = bytes_eq x y && texts_eq xs ys
texts_eq _ _ = false

pub texts_eq_iff : (a b : List Bytes) → (texts_eq a b ≡ true) ↔ (a ≡ b)
unfolding texts_eq
texts_eq_iff (x ∷ a) (y ∷ b) = ground (arith, bytes_eq_iff x y, texts_eq_iff a b)
texts_eq_iff _ _ = ground arith

-- Membership of a text in a list, as a Boolean test.
unfoldable pub has_text : Bytes → List Bytes → Bool
has_text a [] = false
has_text a (x ∷ xs) = bytes_eq x a || has_text a xs

-- `strings.CutPrefix`: the rest, where the prefix is there.
unfoldable pub cut_prefix : Bytes → Bytes → Option Bytes
cut_prefix [] s = some s
cut_prefix (p ∷ ps) [] = none
cut_prefix (p ∷ ps) (c ∷ cs) = if p == c then cut_prefix ps cs else none

pub cut_prefix-eq-some : (p s rest : Bytes) → cut_prefix p s ≡ some rest → s ≡ p ++ rest
unfolding cut_prefix
cut_prefix-eq-some [] s rest h = cc
cut_prefix-eq-some (p ∷ ps) [] rest h = ground arith
cut_prefix-eq-some (p ∷ ps) (c ∷ cs) rest h = elim (Bool-cases (p == c)) [
  | inl same ↦
      ap (λ x. x ∷ cs) (sym ((==_iff p c).0 same))
      ∙ ap (λ x. p ∷ x) (cut_prefix-eq-some ps cs rest (rw same at h))
  | inr other ↦ absurd (cc (rw other at h))
]

-- `strings.HasPrefix`
unfoldable pub has_prefix : Bytes → Bytes → Bool
has_prefix [] s = true
has_prefix (p ∷ ps) [] = false
has_prefix (p ∷ ps) (c ∷ cs) = p == c && has_prefix ps cs

-- A byte of ` \t`, the cut set that the code trims.
abbrev pub is_blank : ℕ → Bool
is_blank c = c == b' ' || c == b'\t'

-- `strings.TrimLeft(s, cut)` for a cut set given as a test.
unfoldable pub trim_left : (ℕ → Bool) → Bytes → Bytes
trim_left cut [] = []
trim_left cut (c ∷ cs) = if cut c then trim_left cut cs else c ∷ cs

abbrev trimmed_cons : (ℕ → Bool) → ℕ → Bytes → Bytes
trimmed_cons cut c [] = if cut c then [] else c ∷ []
trimmed_cons cut c (d ∷ ds) = c ∷ d ∷ ds

-- `strings.TrimRight(s, cut)`
unfoldable pub trim_right : (ℕ → Bool) → Bytes → Bytes
trim_right cut [] = []
trim_right cut (c ∷ cs) = trimmed_cons cut c (trim_right cut cs)

-- `strings.ContainsRune` for an ASCII byte.
unfoldable pub has_byte : ℕ → Bytes → Bool
has_byte b [] = false
has_byte b (c ∷ cs) = c == b || has_byte b cs

-- ASCII white space, as `strings.TrimSpace` trims it.
abbrev pub is_ascii_space : ℕ → Bool
is_ascii_space c = c == b' ' || leb b'\t' c && leb c b'\r'

abbrev pub trim_space : Bytes → Bytes
trim_space s = trim_right is_ascii_space (trim_left is_ascii_space s)

-- `strings.TrimPrefix`
abbrev pub trim_prefix : Bytes → Bytes → Bytes
trim_prefix p s = elim (cut_prefix p s) [ some rest ↦ rest | none ↦ s ]
