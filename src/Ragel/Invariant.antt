-- ===== src/Ragel/Invariant.antt =====
-- What every action keeps, a run keeps.
use fastiron_tofu.Prelude.{
  sym, subst, ℕ, ◌+◌, ◌≡◌, refl, Bool, true, false, List, [], ◌∷◌, some, Bytes, get_or, same_place,
}
use fastiron_tofu.Ragel.{Machine, Flow, go, halt, perform, run, indexed, transition, actions_at}

module _ {ℓ κ} {S : Type ℓ} (m : Machine) (act : ℕ → ℕ → S → S) (P : S → Type κ)
    (keeps : (a p : ℕ) (s : S) → P s → P (act a p s)) where
  abbrev flow : ℕ → ℕ → S → Flow S
  flow a p s = go (act a p s)

  perform-keeps :
      (actions : List ℕ) (p : ℕ) (s : S)
      → P s
      → (t : S) × ((perform m flow actions p s ≡ go t) × P t)
  unfolding perform
  perform-keeps [] p s h = (s, (refl, h))
  perform-keeps (a ∷ more) p s h = perform-keeps more p (act a p s) (keeps a p s h)

  -- What the loop does behind the actions of a transition.
  abbrev after : Bytes → ℕ → ℕ → Flow S → ℕ × S
  after rest p next (halt t) = (next, t)
  after rest p next (go t) = elim (same_place (some next) m.error) [
    | true ↦ (next, t)
    | false ↦ run m flow rest (p + 1) next t
  ]

  either :
      (b : Bool) (x y : ℕ × S)
      → P x.1
      → P y.1
      → P (elim b as (λ _. ℕ × S) [ true ↦ x | false ↦ y ]).1
  either true x y h k = h
  either false x y h k = k

  pub run-keeps : (bs : Bytes) (p cs : ℕ) (s : S) → P s → P (run m flow bs p cs s).1
  unfolding run
  run-keeps [] p cs s h = h
  run-keeps (c ∷ rest) p cs s h =
      let trans = indexed m.indicies (transition m cs c) in
      let next = get_or m.trans_targs trans 0 in
      let (t, (e, ht)) = perform-keeps (actions_at m trans) p s h in
      subst (λ f. P (after rest p next f).1) (sym e)
        (either (same_place (some next) m.error) (next, t) _ ht (run-keeps rest (p + 1) next t ht))
