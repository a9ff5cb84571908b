-- ===== src/Config/Igmp/Settings.antt =====
-- What IGMP reads, by the commands that set it.
use fastiron_tofu.Prelude.{
  ℕ, ◌+◌, ◌≡◌, refl, sym, ◌∙◌, ap, subst, Bool, true, false, not, ◌&&◌, List, [], ◌∷◌, ◌++◌,
  append_assoc, append-nil, map, Bytes, Option, ok, ok-injective, >>=-eq-ok, ◌>>◌, reject_if,
  reject_if-eq-ok, keep, count, loop, if◌then◌else◌, arith, ◌==◌, ◌⊎◌, inl, inr, Bool-cases,
}
use fastiron_tofu.Config.Command.{Command}
use fastiron_tofu.Config.Ve.Rows.{bit}
use fastiron_tofu.Config.Igmp.{
  IgmpState, unowned_setting, in_scope, is_mode, is_version, mode_of, take_mode, take_version,
  take_setting, igmp_step,
}

module _ (scope : Option ℕ) where
  abbrev pub sets_mode : Command → Bool
  sets_mode c = in_scope scope c && is_mode scope c

  abbrev pub sets_version : Command → Bool
  sets_version c = in_scope scope c && (not (is_mode scope c) && is_version c)

  abbrev pub sets_neither : Command → Bool
  sets_neither c = not (sets_mode c) && not (sets_version c)

  -- The mode and the version that the last of their commands set.
  abbrev pub mode_in : Bytes → List Command → Bytes
  mode_in found [] = found
  mode_in found (c ∷ cs) = mode_in (if sets_mode c then mode_of c else found) cs

  abbrev pub version_in : ℕ → List Command → ℕ
  version_in found [] = found
  version_in found (c ∷ cs) = version_in (if sets_version c then c.number else found) cs

  abbrev pub IsVersion : IgmpState → Type 0
  IsVersion s = s.version_seen ≡ true → (s.igmp.version ≡ 2) ⊎ (s.igmp.version ≡ 3)

  abbrev pub Reads : List Command → IgmpState → IgmpState → Type 0
  Reads cs s t =
      (t.igmp.remaining ≡ s.igmp.remaining ++ map (λ c. c.text) (keep sets_neither cs))
      × ((t.igmp.mode ≡ mode_in s.igmp.mode cs)
          × ((t.igmp.version ≡ version_in s.igmp.version cs)
              × ((bit t.mode_seen ≡ bit s.mode_seen + count sets_mode cs)
                  × ((bit t.version_seen ≡ bit s.version_seen + count sets_version cs)
                      × (IsVersion s → IsVersion t)))))

  take_mode-Reads :
      (c : Command) (s t : IgmpState)
      → in_scope scope c ≡ true
      → is_mode scope c ≡ true
      → take_mode c s ≡ ok t
      → Reads (c ∷ []) s t
  unfolding take_mode
  take_mode-Reads c s t inside mode e =
      let (_, new, e1) =
        >>=-eq-ok (reject_if s.mode_seen "native IGMP mode is ambiguous or unsupported") _ e in
      let unseen = reject_if-eq-ok _ _ new in
      subst (Reads (c ∷ []) s) (ok-injective e1) (
        rw (inside, mode) (sym (append-nil s.igmp.remaining)),
        (
          rw (inside, mode) refl,
          (
            rw (inside, mode) refl,
            (rw (inside, mode, unseen) (omega arith), (rw (inside, mode) (omega arith), λ h. h)),
          ),
        ),
      )

  take_version-Reads :
      (c : Command) (s t : IgmpState)
      → in_scope scope c ≡ true
      → is_mode scope c ≡ false
      → is_version c ≡ true
      → take_version c s ≡ ok t
      → Reads (c ∷ []) s t
  unfolding take_version
  take_version-Reads c s t inside other version e =
      let (_, new, e1) =
        >>=-eq-ok (reject_if s.version_seen "native IGMP version is ambiguous or unsupported") _
          e in
      let (_, known, e2) =
        >>=-eq-ok
          (reject_if (not (c.number == 2) && not (c.number == 3))
            "native IGMP version is unsupported")
          _ e1 in
      let unseen = reject_if-eq-ok _ _ new in
      let supported = two_or_three c.number (reject_if-eq-ok _ _ known) in
      subst (Reads (c ∷ []) s) (ok-injective e2) (
        rw (inside, other, version) (sym (append-nil s.igmp.remaining)),
        (
          rw (inside, other) refl,
          (
            rw (inside, other, version) refl,
            (
              rw (inside, other) (omega arith),
              (rw (inside, other, version, unseen) (omega arith), λ h on. supported),
            ),
          ),
        ),
      )
    where
      two_or_three : (n : ℕ) → (not (n == 2) && not (n == 3)) ≡ false → (n ≡ 2) ⊎ (n ≡ 3)
      two_or_three n h = elim (Bool-cases (n == 2)) [
        | inl two ↦ inl (ground arith)
        | inr other ↦ inr (ground arith)
      ]

  unowned-Reads :
      (c : Command) (s t : IgmpState)
      → sets_mode c ≡ false
      → sets_version c ≡ false
      → unowned_setting c s ≡ t
      → Reads (c ∷ []) s t
  unowned-Reads c s t no_mode no_version e = subst (Reads (c ∷ []) s) e (
    rw (no_mode, no_version) refl,
    (
      rw no_mode refl,
      (rw no_version refl, (rw no_mode (omega arith), (rw no_version (omega arith), λ h. h))),
    ),
  )

  igmp_step-Reads :
      (i : ℕ) (c : Command) (s t : IgmpState) → igmp_step scope i c s ≡ ok t → Reads (c ∷ []) s t
  unfolding igmp_step
  igmp_step-Reads i c s t e = elim (Bool-cases (in_scope scope c)) [
    | inr out ↦ unowned-Reads c s t (rw out refl) (rw out refl) (ok-injective (rw out at e))
    | inl inside ↦
        let (_, _, e1) =
          >>=-eq-ok (reject_if (not c.valid) "native IGMP setting is malformed")
            (λ _. take_setting scope c s)
            (ap
                (λ b.
                  if b
                  then reject_if (not c.valid) "native IGMP setting is malformed"
                    >> take_setting scope c s
                  else ok (unowned_setting c s))
                (sym inside)
              ∙ e) in
        elim (Bool-cases (is_mode scope c)) [
          | inl mode ↦ take_mode-Reads c s t inside mode (rw mode at e1)
          | inr other ↦ elim (Bool-cases (is_version c)) [
            | inl version ↦
                take_version-Reads c s t inside other version (rw (other, version) at e1)
            | inr neither ↦
                unowned-Reads c s t (rw (inside, other) refl) (rw (inside, other, neither) refl)
                  (ok-injective (rw (other, neither) at e1))
          ]
        ]
  ]

  texts : List Command → List Bytes
  texts cs = map (λ c. c.text) (keep sets_neither cs)

  texts-cons : (c : Command) (cs : List Command) → texts (c ∷ cs) ≡ texts (c ∷ []) ++ texts cs
  unfolding texts
  texts-cons c cs = elim (Bool-cases (sets_neither c)) [
    | inl unowned ↦ rw unowned refl
    | inr owned ↦ rw owned refl
  ]

  pub loop-Reads :
      (i : ℕ) (cs : List Command) (s u : IgmpState)
      → loop (igmp_step scope) i cs s ≡ ok u
      → Reads cs s u
  unfolding loop texts
  loop-Reads i [] s u e =
      subst (Reads [] s) (ok-injective e)
        (sym (append-nil s.igmp.remaining), (refl, (refl, (omega arith, (omega arith, λ h. h)))))
  loop-Reads i (c ∷ cs) s u e =
      let (t, stepped, later) =
        >>=-eq-ok (igmp_step scope i c s) (λ t. loop (igmp_step scope) (i + 1) cs t) e in
      let (rem, (mode, (version, (modes, (versions, known))))) = igmp_step-Reads i c s t stepped in
      let (rem', (mode', (version', (modes', (versions', known'))))) =
        loop-Reads (i + 1) cs t u later in
      (
        rem'
            ∙ (ap (λ l. l ++ texts cs) rem
                ∙ (append_assoc s.igmp.remaining (texts (c ∷ [])) (texts cs)
                    ∙ ap (λ l. s.igmp.remaining ++ l) (sym (texts-cons c cs)))),
        (
          mode' ∙ ap (λ m. mode_in m cs) mode,
          (
            version' ∙ ap (λ v. version_in v cs) version,
            (
              omega (arith, modes, modes'),
              (omega (arith, versions, versions'), λ h. known' (known h)),
            ),
          ),
        ),
      )
