-- ===== src/Prelude/Loops.antt =====
-- `for i, c := range list { … }` with early error returns, and its invariant rule.
use Prim.Native.Nat.{ℕ, ◌+◌}
use mathlib.Core.Path.{◌≡◌, subst}
use mathlib.Core.List.{List, [], ◌∷◌}
use fastiron_tofu.Prelude.Results.{Result, ok, ◌>>=◌, >>=-eq-ok, ok-injective}

module _ {ℓ κ} {C : Type ℓ} {S : Type κ} where
  unfoldable pub loop : (ℕ → C → S → Result S) → ℕ → List C → S → Result S
  loop step i [] s = ok s
  loop step i (c ∷ cs) s = step i c s >>= λ t. loop step (i + 1) cs t

  -- `P i rest s`: in state `s`, with `rest` still to come from position `i`.
  pub loop_inv {μ} :
      (P : ℕ → List C → S → Type μ) (step : ℕ → C → S → Result S)
      → ((i : ℕ) (c : C) (cs : List C) (s t : S)
          → P i (c ∷ cs) s
          → step i c s ≡ ok t
          → P (i + 1) cs t)
      → (i : ℕ) (cs : List C) (s : S) {r : S} → P i cs s
      → loop step i cs s ≡ ok r
      → (n : ℕ) × P n [] r
  unfolding loop
  loop_inv P step keeps i [] s h e = (i, subst (P i []) (ok-injective e) h)
  loop_inv P step keeps i (c ∷ cs) s h e =
      let (t, stepped, later) = >>=-eq-ok (step i c s) (λ t. loop step (i + 1) cs t) e in
      loop_inv P step keeps (i + 1) cs t (keeps i c cs s t h stepped) later
