-- ===== src/Config/Igmp/Defaults.antt =====
-- The answer of IGMP, with the defaults of the top level.
use fastiron_tofu.Prelude.{
  ℕ, ◌+◌, ◌≤◌, ◌≡◌, refl, sym, ◌∙◌, subst, Bool, true, List, [], ◌∷◌, map, Bytes, Option, none,
  some, codes, ok, ok-injective, >>=-eq-ok, keep, count, loop, if◌then◌else◌, arith, ◌⊎◌, inl, inr,
  Bool-cases,
}
use fastiron_tofu.Config.Command.{Command, Document}
use fastiron_tofu.Config.Ve.Rows.{bit}
use fastiron_tofu.Config.Igmp.{Igmp, IgmpState, igmp_start, igmp_step, with_defaults, igmp}
use fastiron_tofu.Config.Igmp.Settings.{
  sets_mode, sets_version, sets_neither, mode_in, version_in, loop-Reads,
}

module _ (scope : Option ℕ) where
  mode_in-default :
      (a b : Bytes) (cs : List Command)
      → 1 ≤ count (sets_mode scope) cs
      → mode_in scope a cs ≡ mode_in scope b cs
  mode_in-default a b [] h = absurd (omega arith)
  mode_in-default a b (c ∷ cs) h = elim (Bool-cases (sets_mode scope c)) [
    | inl sets ↦ rw sets refl
    | inr unset ↦ rw unset (mode_in-default a b cs (omega (arith, rw unset at h)))
  ]

  mode_in-unset :
      (a : Bytes) (cs : List Command) → count (sets_mode scope) cs ≡ 0 → mode_in scope a cs ≡ a
  mode_in-unset a [] h = refl
  mode_in-unset a (c ∷ cs) h = elim (Bool-cases (sets_mode scope c)) [
    | inl sets ↦ absurd (omega (arith, rw sets at h))
    | inr unset ↦ rw unset (mode_in-unset a cs (omega (arith, rw unset at h)))
  ]

  version_in-default :
      (a b : ℕ) (cs : List Command)
      → 1 ≤ count (sets_version scope) cs
      → version_in scope a cs ≡ version_in scope b cs
  version_in-default a b [] h = absurd (omega arith)
  version_in-default a b (c ∷ cs) h = elim (Bool-cases (sets_version scope c)) [
    | inl sets ↦ rw sets refl
    | inr unset ↦ rw unset (version_in-default a b cs (omega (arith, rw unset at h)))
  ]

  version_in-unset :
      (a : ℕ) (cs : List Command) → count (sets_version scope) cs ≡ 0 → version_in scope a cs ≡ a
  version_in-unset a [] h = refl
  version_in-unset a (c ∷ cs) h = elim (Bool-cases (sets_version scope c)) [
    | inl sets ↦ absurd (omega (arith, rw sets at h))
    | inr unset ↦ rw unset (version_in-unset a cs (omega (arith, rw unset at h)))
  ]

-- The mode and the version where no command sets one.
abbrev pub default_mode : Option ℕ → Bytes
default_mode none = codes "disabled"
default_mode (some i) = []

abbrev pub default_version : Option ℕ → ℕ
default_version none = 2
default_version (some i) = 0

abbrev pub StatesIgmp : Option ℕ → Igmp → List Command → Type 0
StatesIgmp scope g cs =
    (g.remaining ≡ map (λ c. c.text) (keep (sets_neither scope) cs))
    × ((g.mode ≡ mode_in scope (default_mode scope) cs)
        × ((g.version ≡ version_in scope (default_version scope) cs)
            × ((count (sets_mode scope) cs ≤ 1)
                × ((count (sets_version scope) cs ≤ 1)
                    × (count (sets_version scope) cs ≡ 1 → (g.version ≡ 2) ⊎ (g.version ≡ 3))))))

at_most : (b : Bool) (n : ℕ) → bit b ≡ 0 + n → n ≤ 1
at_most b n e = ground arith

seen_of : (b : Bool) (n : ℕ) → bit b ≡ 0 + n → n ≡ 1 → b ≡ true
seen_of b n e one = ground arith

with_defaults-StatesIgmp :
    (scope : Option ℕ) (cs : List Command) (s : IgmpState)
    → (s.igmp.remaining ≡ map (λ c. c.text) (keep (sets_neither scope) cs))
    → (s.igmp.mode ≡ mode_in scope [] cs)
    → (s.igmp.version ≡ version_in scope 0 cs)
    → (bit s.mode_seen ≡ 0 + count (sets_mode scope) cs)
    → (bit s.version_seen ≡ 0 + count (sets_version scope) cs)
    → (s.version_seen ≡ true → (s.igmp.version ≡ 2) ⊎ (s.igmp.version ≡ 3))
    → StatesIgmp scope (with_defaults scope s) cs
with_defaults-StatesIgmp (some i) cs s rem mode version modes versions known = (
  rem,
  (
    mode,
    (
      version,
      (
        at_most s.mode_seen _ modes,
        (at_most s.version_seen _ versions, λ one. known (seen_of s.version_seen _ versions one)),
      ),
    ),
  ),
)
with_defaults-StatesIgmp none cs s rem mode version modes versions known = (
  rem,
  (
    mode_known,
    (
      version_known,
      (
        at_most s.mode_seen _ modes,
        (
          at_most s.version_seen _ versions,
          λ one. let seen = seen_of s.version_seen _ versions one in rw seen (known seen),
        ),
      ),
    ),
  ),
)
  where
    mode_known :
        (if s.mode_seen then s.igmp.mode else codes "disabled") ≡ mode_in none (codes "disabled") cs
    mode_known = elim (Bool-cases s.mode_seen) [
      | inl seen ↦
          rw seen
            (mode ∙ mode_in-default none [] (codes "disabled") cs (omega (arith, rw seen at modes)))
      | inr unseen ↦
          rw unseen
            (sym (mode_in-unset none (codes "disabled") cs (omega (arith, rw unseen at modes))))
    ]

    version_known : (if s.version_seen then s.igmp.version else 2) ≡ version_in none 2 cs
    version_known = elim (Bool-cases s.version_seen) [
      | inl seen ↦
          rw seen (version ∙ version_in-default none 0 2 cs (omega (arith, rw seen at versions)))
      | inr unseen ↦
          rw unseen (sym (version_in-unset none 2 cs (omega (arith, rw unseen at versions))))
    ]

-- An answer of IGMP holds the mode and the version that the multicast commands of its scope set,
-- by the last of each with at most one of each, and the defaults otherwise: disabled and 2 at the
-- top level, empty and 0 in a VLAN. A version that is set is 2 or 3. The remaining text is that of
-- every command that sets neither, in order, where the top level does not own the command that
-- disables snooping.
pub igmp-StatesIgmp :
    (d : Document) (scope : Option ℕ) (g : Igmp)
    → igmp d scope ≡ ok g
    → StatesIgmp scope g d.commands
unfolding igmp
igmp-StatesIgmp d scope g e =
    let (s, looped, result) =
      >>=-eq-ok (loop (igmp_step scope) 0 d.commands igmp_start) (λ s. ok (with_defaults scope s))
        e in
    let (rem, (mode, (version, (modes, (versions, known))))) =
      loop-Reads scope 0 d.commands igmp_start s looped in
    subst (λ g. StatesIgmp scope g d.commands) (ok-injective result)
      (with_defaults-StatesIgmp scope d.commands s rem mode version modes versions
        (known (λ on. absurd (ground arith))))
