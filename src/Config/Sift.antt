-- ===== src/Config/Sift.antt =====
-- The loop shape that the extractors of internal/config share: every command is skipped, kept
-- in the unowned text, or handed to the extractor.
use fastiron_tofu.Prelude.{
  ℕ, ◌+◌, ◌≡◌, refl, ◌⊎◌, inl, inr, List, [], ◌∷◌, ◌++◌, append_assoc, append-nil, Bytes, Result,
  ok, err, ◌>>=◌, loop,
}
use fastiron_tofu.Config.Command.{Command}

pub data Role : Type 0 where
  skipped kept owned : Role

module _ {A : Type 0} where
  -- What a command of a role adds to the unowned text, and to the commands handed over.
  abbrev pub if_kept : Role → A → List A → List A
  if_kept kept a rest = a ∷ rest
  if_kept _ a rest = rest

  abbrev pub if_owned : Role → A → List A → List A
  if_owned owned a rest = a ∷ rest
  if_owned _ a rest = rest

module _ (role : ℕ → Command → Role) where
  abbrev pub kept_texts : ℕ → List Command → List Bytes
  kept_texts i [] = []
  kept_texts i (c ∷ cs) = if_kept (role i c) c.text (kept_texts (i + 1) cs)

  abbrev pub owned_commands : ℕ → List Command → List Command
  owned_commands i [] = []
  owned_commands i (c ∷ cs) = if_owned (role i c) c (owned_commands (i + 1) cs)

Role-cases : (r : Role) → (r ≡ skipped) ⊎ ((r ≡ kept) ⊎ (r ≡ owned))
Role-cases skipped = inl refl
Role-cases kept = inr (inl refl)
Role-cases owned = inr (inr refl)

module _ {ℓ} {S : Type ℓ} where
  -- One command at a time, with no text collected.
  unfoldable pub consume_all : (Command → S → Result S) → List Command → S → Result S
  consume_all consume [] s = ok s
  consume_all consume (c ∷ cs) s = consume c s >>= λ t. consume_all consume cs t

  abbrev act : (Command → S → Result S) → Role → Command → S × List Bytes → Result (S × List Bytes)
  act consume skipped c (s, remaining) = ok (s, remaining)
  act consume kept c (s, remaining) = ok (s, remaining ++ c.text ∷ [])
  act consume owned c (s, remaining) = consume c s >>= λ t. ok (t, remaining)

  -- for i, c := range commands {
  --   if skipped { continue }
  --   if !owned { remaining = append(remaining, c.Text); continue }
  --   consume }
  unfoldable pub sift :
      (ℕ → Command → Role) → (Command → S → Result S) → List Command → S → Result (S × List Bytes)
  unfolding loop
  sift role consume cs s = loop (λ i c. act consume (role i c) c) 0 cs (s, [])

  loop-act :
      (role : ℕ → Command → Role) (consume : Command → S → Result S) (i : ℕ) (cs : List Command)
      (s : S) (remaining : List Bytes)
      → loop (λ i c. act consume (role i c) c) i cs (s, remaining) ≡ (
          consume_all consume (owned_commands role i cs) s >>= λ t.
          ok (t, remaining ++ kept_texts role i cs))
  unfolding loop consume_all
  loop-act role consume i [] s remaining = rw append-nil
  loop-act role consume i (c ∷ cs) s remaining = elim (Role-cases (role i c)) [
    | inl e ↦ rw e (loop-act role consume (i + 1) cs s remaining)
    | inr (inl e) ↦
        rw e (simp append_assoc at (loop-act role consume (i + 1) cs s (remaining ++ c.text ∷ [])))
    | inr (inr e) ↦
        rw e (step_owned (consume c s) (λ t. loop-act role consume (i + 1) cs t remaining))
  ]
    where
      step_owned :
          (m : Result S)
          → ((t : S)
              → loop (λ i c. act consume (role i c) c) (i + 1) cs (t, remaining) ≡ (
                  consume_all consume (owned_commands role (i + 1) cs) t >>= λ t.
                  ok (t, remaining ++ kept_texts role (i + 1) cs)))
          → ((m >>= λ t. ok (t, remaining)) >>= loop (λ i c. act consume (role i c) c) (i + 1) cs)
            ≡ ((m >>= λ t. consume_all consume (owned_commands role (i + 1) cs) t) >>= λ t.
                ok (t, remaining ++ kept_texts role (i + 1) cs))
      step_owned (ok t) ih = ih t
      step_owned (err x) ih = refl

  -- The loop is the fold over the owned commands, beside the unowned texts in their order.
  pub sift_lem :
      (role : ℕ → Command → Role) (consume : Command → S → Result S) (cs : List Command) (s : S)
      → sift role consume cs s
        ≡ (consume_all consume (owned_commands role 0 cs) s >>= λ t. ok (t, kept_texts role 0 cs))
  unfolding sift
  sift_lem role consume cs s = loop-act role consume 0 cs s []
