-- ===== src/Config/PortId/Component.antt =====
-- One component of a port identity: from the state before its first digit to the state behind
-- the byte that closes it.
use fastiron_tofu.Prelude.{
  subst, ℕ, suc, ◌+◌, ◌≡◌, refl, sym, ◌∙◌, ap, Bool, true, false, [], ◌∷◌, ◌++◌, append_assoc,
  Bytes, slice, slice-append, length, length-append, leb, ◌==◌, if◌then◌else◌, ==_iff, arith,
  Bool-cases, inl, inr,
}
use fastiron_tofu.Ragel.{run}
use fastiron_tofu.Config.Numbers.{is_digit, parse_uint64}
use fastiron_tofu.Config.Numbers.Decimal.{all_digits, is_nonzero_digit, is_numeral}
use fastiron_tofu.Config.PortId.{PortState, port_machine, port_action, component_done}

pub not_both : {b : Bool} → b ≡ true → b ≡ false → ⊥
not_both on off = ground arith

module _ (text : Bytes) where
  -- The machine from a state on.
  abbrev pub from : ℕ → ℕ → Bytes → PortState → ℕ × PortState
  from p cs rest s = run port_machine (port_action text) rest p cs s

  abbrev pub AtFirst : ℕ → ℕ → Type 0
  AtFirst first inside =
      (c : ℕ) (rest : Bytes) (p : ℕ) (s : PortState)
      → from p first (c ∷ rest) s
        ≡ (if is_nonzero_digit c then from (p + 1) inside rest (record s { start = p }) else (0, s))

  abbrev pub Inside : ℕ → ℕ → ℕ → Type 0
  Inside inside after sep =
      (c : ℕ) (rest : Bytes) (p : ℕ) (s : PortState)
      → from p inside (c ∷ rest) s ≡ (
          if c == sep
          then from (p + 1) after rest (component_done (parse_uint64 (slice text s.start p)) s)
          else if is_digit c
          then from (p + 1) inside rest s
          else (0, s))

  abbrev pub IsAccepted : ℕ × PortState → Type 0
  IsAccepted r = leb 7 r.0 ≡ true

  pub ended : (p cs : ℕ) (s : PortState) → from p cs [] s ≡ (cs, s)
  unfolding run
  ended p cs s = refl

  module _ (first inside after sep : ℕ) (closing : is_digit sep ≡ false)
      (at_first : AtFirst first inside) (at_inside : Inside inside after sep)
      (first_open : leb 7 first ≡ false) (inside_open : leb 7 inside ≡ false) where
    digits_read :
        (ds rest : Bytes) (p : ℕ) (s : PortState)
        → all_digits ds ≡ true
        → from p inside (ds ++ sep ∷ rest) s
          ≡ from
              (p + length ds + 1)
              after
              rest
              (component_done (parse_uint64 (slice text s.start (p + length ds))) s)
    digits_read [] rest p s h =
        let at : (sep == sep) ≡ true = ground arith in
        let here : p + 0 ≡ p = omega arith in at_inside sep rest p s ∙ (rw (at, here) refl)
    digits_read (c ∷ ds) rest p s h =
        let digit : is_digit c ≡ true = ground arith in
        let more : all_digits ds ≡ true = ground arith in
        let other : (c == sep) ≡ false = ground arith in
        let shift : p + 1 + length ds ≡ p + suc (length ds) = omega arith in
        at_inside c (ds ++ sep ∷ rest) p s
        ∙ (rw (other, digit)
            (digits_read ds rest (p + 1) s more
              ∙ ap
                  (λ q.
                    from (q + 1) after rest
                      (component_done (parse_uint64 (slice text s.start q)) s))
                  shift))

    -- What an accepting run reads of the rest.
    digits_found :
        (rest : Bytes) (p : ℕ) (s : PortState)
        → IsAccepted (from p inside rest s)
        → (ds : Bytes) × ((more : Bytes) × ((all_digits ds ≡ true) × (rest ≡ ds ++ sep ∷ more)))
    digits_found [] p s accepted = absurd (not_both (rw (ended p inside s) at accepted) inside_open)
    digits_found (c ∷ rest) p s accepted = elim (Bool-cases (c == sep)) [
      | inl closed ↦ ([], (rest, (refl, ap (λ d. d ∷ rest) ((==_iff c sep).0 closed))))
      | inr open_still ↦ elim (Bool-cases (is_digit c)) [
        | inl digit ↦
            let (ds, (more, (digits, e))) =
              digits_found rest (p + 1) s
                (rw (open_still, digit) at (rw (at_inside c rest p s) at accepted)) in
            (c ∷ ds, (more, (rw (digit, digits) refl, ap (λ r. c ∷ r) e)))
        | inr other ↦
            absurd (cc (rw (open_still, other) at (rw (at_inside c rest p s) at accepted)))
      ]
    ]

    pub component_found :
        (rest : Bytes) (p : ℕ) (s : PortState)
        → IsAccepted (from p first rest s)
        → (a : Bytes) × ((more : Bytes) × ((is_numeral a ≡ true) × (rest ≡ a ++ sep ∷ more)))
    component_found [] p s accepted =
        absurd (not_both (rw (ended p first s) at accepted) first_open)
    component_found (c ∷ rest) p s accepted = elim (Bool-cases (is_nonzero_digit c)) [
      | inl digit ↦
          let (ds, (more, (digits, e))) =
            digits_found rest (p + 1) (record s { start = p })
              (rw digit at (rw (at_first c rest p s) at accepted)) in
          (c ∷ ds, (more, (rw (digit, digits) refl, ap (λ r. c ∷ r) e)))
      | inr other ↦ absurd (cc (rw other at (rw (at_first c rest p s) at accepted)))
    ]

    -- A numeral and its closing byte, behind `done`.
    pub component_read :
        (a rest done : Bytes) (s : PortState) (p : ℕ)
        → is_numeral a ≡ true
        → text ≡ done ++ (a ++ sep ∷ rest)
        → p ≡ length done
        → from p first (a ++ sep ∷ rest) s
          ≡ from
              (p + length a + 1)
              after
              rest
              (component_done (parse_uint64 a) (record s { start = p }))
    component_read [] rest done s p h e at = ground arith
    component_read (c ∷ cs) rest done s p h e at =
        let digit : is_nonzero_digit c ≡ true = ground arith in
        let digits : all_digits cs ≡ true = ground arith in
        let shift : p + 1 + length cs ≡ p + length (c ∷ cs) = omega arith in
        let cut : slice text p (p + length (c ∷ cs)) ≡ c ∷ cs = rw e (
          slice-append done (c ∷ cs) (sep ∷ rest) p (p + length (c ∷ cs)) at (omega (arith, at))) in
        at_first c (cs ++ sep ∷ rest) p s
        ∙ (rw digit (
            digits_read cs rest (p + 1) (record s { start = p }) digits
            ∙ (ap
                  (λ q.
                    from (q + 1) after rest
                      (component_done (parse_uint64 (slice text p q)) (record s { start = p })))
                  shift
                ∙ ap
                    (λ t.
                      from (p + length (c ∷ cs) + 1) after rest
                        (component_done (parse_uint64 t) (record s { start = p })))
                    cut)))

    -- Behind `done`, an accepting run reads a numeral and its closing byte, and accepts the rest.
    pub component_split :
        (rest done : Bytes) (s : PortState)
        → text ≡ done ++ rest
        → IsAccepted (from (length done) first rest s)
        → (a : Bytes) × ((more : Bytes) × ((is_numeral a ≡ true)
              × ((rest ≡ a ++ sep ∷ more)
                  × ((behind : Bytes) × ((t : PortState) × ((text ≡ behind ++ more)
                          × IsAccepted (from (length behind) after more t)))))))
    component_split rest done s e accepted =
        let (a, (more, (numeral, split))) = component_found rest (length done) s accepted in
        let t = component_done (parse_uint64 a) (record s { start = length done }) in
        let whole : text ≡ done ++ (a ++ sep ∷ more) = e ∙ ap (λ r. done ++ r) split in
        let read =
          ap (λ r. from (length done) first r s) split
          ∙ component_read a more done s (length done) numeral whole refl in
        let behind = done ++ (a ++ sep ∷ []) in
        let far : length done + length a + 1 ≡ length behind =
          omega (arith, length-append done (a ++ sep ∷ []), length-append a (sep ∷ [])) in
        let regrouped : done ++ (a ++ sep ∷ more) ≡ behind ++ more = sym (
          append_assoc done (a ++ sep ∷ []) more
          ∙ ap (λ r. done ++ r) (append_assoc a (sep ∷ []) more)) in
        let at = read ∙ ap (λ q. from q after more t) far in
        (
          a,
          (
            more,
            (numeral, (split, (behind, (t, (whole ∙ regrouped, subst IsAccepted at accepted))))),
          ),
        )
