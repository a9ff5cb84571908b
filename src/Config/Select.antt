-- ===== src/Config/Select.antt =====
-- Loops of internal/config that collect no text: `for … { if !selected { continue }; … }`.
use fastiron_tofu.Prelude.{
  ℕ, ◌+◌, ◌≡◌, refl, Bool, List, [], ◌∷◌, Result, ok, err, ◌>>=◌, loop, keep, Bool-cases, inl, inr,
  if◌then◌else◌,
}
use fastiron_tofu.Config.Command.{Command}

module _ {ℓ} {S : Type ℓ} where
  unfoldable pub for_selected :
      (Command → Bool) → (Command → S → Result S) → List Command → S → Result S
  unfolding loop
  for_selected selected body cs s = loop (λ i c s. if selected c then body c s else ok s) 0 cs s

  unfoldable pub body_all : (Command → S → Result S) → List Command → S → Result S
  body_all body [] s = ok s
  body_all body (c ∷ cs) s = body c s >>= λ t. body_all body cs t

  loop-body_all :
      (selected : Command → Bool) (body : Command → S → Result S) (i : ℕ) (cs : List Command)
      (s : S)
      → loop (λ i c s. if selected c then body c s else ok s) i cs s
        ≡ body_all body (keep selected cs) s
  unfolding loop body_all
  loop-body_all selected body i [] s = refl
  loop-body_all selected body i (c ∷ cs) s = elim (Bool-cases (selected c)) [
    | inl e ↦ rw e (taken (body c s) (λ t. loop-body_all selected body (i + 1) cs t))
    | inr e ↦ rw e (loop-body_all selected body (i + 1) cs s)
  ]
    where
      taken :
          (m : Result S)
          → ((t : S)
              → loop (λ i c s. if selected c then body c s else ok s) (i + 1) cs t
                ≡ body_all body (keep selected cs) t)
          → (m >>= λ t. loop (λ i c s. if selected c then body c s else ok s) (i + 1) cs t)
            ≡ (m >>= λ t. body_all body (keep selected cs) t)
      taken (ok t) ih = ih t
      taken (err x) ih = refl

  -- Such a loop runs its body over the selected commands, in order.
  pub for_selected_lem :
      (selected : Command → Bool) (body : Command → S → Result S) (cs : List Command) (s : S)
      → for_selected selected body cs s ≡ body_all body (keep selected cs) s
  unfolding for_selected
  for_selected_lem selected body cs s = loop-body_all selected body 0 cs s
