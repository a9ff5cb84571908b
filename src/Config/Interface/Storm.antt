-- ===== src/Config/Interface/Storm.antt =====
-- The storm limits that InterfacePolicy reads.
use fastiron_tofu.Prelude.{
  ℕ, ◌+◌, ◌≤◌, ◌≡◌, refl, sym, ap, subst, true, false, List, [], ◌∷◌, Bytes, ok, ok-injective,
  >>=-eq-ok, Option, All, arith, Bool-cases, bytes_eq, bytes_eq_iff, ◌∙◌, inl, inr, ◌==◌,
}
use fastiron_tofu.Config.Command.{Command, Document, storm_limit}
use fastiron_tofu.Config.Sift.{
  Role, skipped, kept, owned, if_owned, consume_all, owned_commands, kept_texts, sift, sift_lem,
}
use fastiron_tofu.Config.Interface.{
  InterfacePolicy, storm, no_policy, has_limit, consume, consume_storm, storm_unit, policy_role,
  interface_policy, interface_header,
}

-- Limits of distinct traffic classes, each of at least 1.
abbrev pub AreLimits : List (Bytes × ℕ) → Type 0
AreLimits [] = Unit
AreLimits ((name, rate) ∷ limits) =
    (has_limit name limits ≡ false) × ((1 ≤ rate) × AreLimits limits)

-- The limits of commands in order, the last first, in front of `limits`.
abbrev pub limits_onto : List (Bytes × ℕ) → List Command → List (Bytes × ℕ)
limits_onto limits [] = limits
limits_onto limits (c ∷ cs) = limits_onto ((c.name, c.number) ∷ limits) cs

consume-storm :
    (c : Command) (s t : InterfacePolicy)
    → (c.kind == storm_limit) ≡ true
    → AreLimits s.limits
    → consume c s ≡ ok t
    → (t.limits ≡ (c.name, c.number) ∷ s.limits) × (AreLimits t.limits × ((t.unit ≡ storm_unit c)))
unfolding consume consume_storm
consume-storm c s t is_storm limits e = ground arith

consume-unit :
    (c : Command) (s t : InterfacePolicy)
    → (c.kind == storm_limit) ≡ true
    → bytes_eq s.unit [] ≡ false
    → consume c s ≡ ok t
    → (storm_unit c ≡ s.unit) × (t.unit ≡ s.unit)
unfolding consume consume_storm
consume-unit c s t is_storm set e =
    let same : bytes_eq s.unit (storm_unit c) ≡ true = ground arith in
    let equal = (bytes_eq_iff s.unit (storm_unit c)).0 same in
    let after : t.unit ≡ storm_unit c = ground arith in (sym equal, after ∙ sym equal)

storm_unit_set : (c : Command) → bytes_eq (storm_unit c) [] ≡ false
unfolding bytes_eq
storm_unit_set c = elim (Bool-cases (bytes_eq c.unit [])) [ inl e ↦ rw e refl | inr e ↦ rw e e ]

abbrev AreStorm : List Command → Type 0
AreStorm cs = All (λ c. (c.kind == storm_limit) ≡ true) cs

consume_all-limits :
    (cs : List Command) (s r : InterfacePolicy)
    → AreStorm cs
    → AreLimits s.limits
    → consume_all consume cs s ≡ ok r
    → (r.limits ≡ limits_onto s.limits cs) × AreLimits r.limits
unfolding consume_all
consume_all-limits [] s r storms limits e = let same = ok-injective e in rw (← same) (refl, limits)
consume_all-limits (c ∷ cs) s r (is_storm, storms) limits e =
    let (t, stepped, later) = >>=-eq-ok (consume c s) (λ t. consume_all consume cs t) e in
    let (grown, (kept_up, unit)) = consume-storm c s t is_storm limits stepped in
    rw (← grown) (consume_all-limits cs t r storms kept_up later)

consume_all-unit :
    (cs : List Command) (s r : InterfacePolicy)
    → AreStorm cs
    → bytes_eq s.unit [] ≡ false
    → consume_all consume cs s ≡ ok r
    → (r.unit ≡ s.unit) × All (λ c. storm_unit c ≡ s.unit) cs
unfolding consume_all
consume_all-unit [] s r storms set e = (sym (ap (λ x. x.unit) (ok-injective e)), tt)
consume_all-unit (c ∷ cs) s r (is_storm, storms) set e =
    let (t, stepped, later) = >>=-eq-ok (consume c s) (λ t. consume_all consume cs t) e in
    let (here, there) = consume-unit c s t is_storm set stepped in
    let (same, others) = consume_all-unit cs t r storms (rw there set) later in
    (same ∙ there, (here, subst (λ u. All (λ c. storm_unit c ≡ u) cs) there others))

owned_kind :
    (r : Role) (c : Command) (rest : List Command)
    → (r ≡ owned → (c.kind == storm_limit) ≡ true)
    → AreStorm rest
    → AreStorm (if_owned r c rest)
owned_kind skipped c rest is_storm storms = storms
owned_kind kept c rest is_storm storms = storms
owned_kind owned c rest is_storm storms = (is_storm refl, storms)

policy_role-storm :
    (header : Option ℕ) (i : ℕ) (c : Command)
    → policy_role header storm i c ≡ owned
    → (c.kind == storm_limit) ≡ true
unfolding policy_role
policy_role-storm header i c e = ground arith

owned-storm :
    (header : Option ℕ) (i : ℕ) (cs : List Command)
    → AreStorm (owned_commands (policy_role header storm) i cs)
owned-storm header i [] = tt
owned-storm header i (c ∷ cs) =
    owned_kind (policy_role header storm i c) c _ (policy_role-storm header i c)
      (owned-storm header (i + 1) cs)

consume_all-storm :
    (cs : List Command) (r : InterfacePolicy)
    → AreStorm cs
    → consume_all consume cs no_policy ≡ ok r
    → All (λ c. storm_unit c ≡ r.unit) cs
unfolding consume_all
consume_all-storm [] r storms e = tt
consume_all-storm (c ∷ cs) r (is_storm, storms) e =
    let (t, stepped, later) = >>=-eq-ok (consume c no_policy) (λ t. consume_all consume cs t) e in
    let (grown, (limits, unit)) = consume-storm c no_policy t is_storm tt stepped in
    let (same, others) = consume_all-unit cs t r storms (rw unit (storm_unit_set c)) later in
    (sym unit ∙ sym same, subst (λ u. All (λ c. storm_unit c ≡ u) cs) (sym same) others)

-- The storm policy of an interface: what its owned commands state, and the rest.
abbrev pub StatesStorm : Document → Bytes → InterfacePolicy → List Bytes → Type 0
StatesStorm d name s remaining =
    (header : Option ℕ) × ((interface_header d name ≡ ok header)
      × ((s.limits ≡ limits_onto [] (owned_commands (policy_role header storm) 0 d.commands))
          × (AreLimits s.limits
              × (All (λ c. storm_unit c ≡ s.unit)
                    (owned_commands (policy_role header storm) 0 d.commands)
                  × (remaining ≡ kept_texts (policy_role header storm) 0 d.commands)))))

-- A storm policy that InterfacePolicy returns holds the limits of the storm commands below the
-- header of the interface, the last first. The limits are of distinct traffic classes and at least
-- 1, every command has the unit of the policy, and the remaining text is that of every command
-- that is neither one of them nor the header.
pub interface_policy-StatesStorm :
    (d : Document) (name : Bytes) (s : InterfacePolicy) (remaining : List Bytes)
    → interface_policy d name storm ≡ ok (s, remaining)
    → StatesStorm d name s remaining
unfolding interface_policy
interface_policy-StatesStorm d name s remaining e =
    let (header, at, read) =
      >>=-eq-ok (interface_header d name)
        (λ h. sift (policy_role h storm) consume d.commands no_policy) e in
    let cs = owned_commands (policy_role header storm) 0 d.commands in
    let storms = owned-storm header 0 d.commands in
    let (r, folded, result) =
      >>=-eq-ok (consume_all consume cs no_policy)
        (λ r. ok (r, kept_texts (policy_role header storm) 0 d.commands))
        (sym (sift_lem (policy_role header storm) consume d.commands no_policy) ∙ read) in
    let same : r ≡ s = ap (λ x. x.0) (ok-injective result) in
    let (listed, limits) = consume_all-limits cs no_policy r storms tt folded in
    (
      header,
      (
        at,
        (
          subst (λ x. x.limits ≡ limits_onto [] cs) same listed,
          (
            subst (λ x. AreLimits x.limits) same limits,
            (
              subst (λ x. All (λ c. storm_unit c ≡ x.unit) cs) same
                  (consume_all-storm cs r storms folded),
              sym (ap (λ x. x.1) (ok-injective result)),
            ),
          ),
        ),
      ),
    )
