-- ===== src/Config/Stp/All.antt =====
-- What STPVLANs returns, against STPVLAN and the headers of the document.
use fastiron_tofu.Prelude.{
  Error, ℕ, ◌+◌, ◌≤◌, ◌≡◌, ◌≢◌, refl, sym, ◌∙◌, ap, subst, true, List, [], ◌∷◌, ◌++◌, Bytes, Option,
  none, some, Result, ok, err, ok-injective, >>=-eq-ok, loop, loop_inv, All, All-append, All-map,
  count-append, length-places, count, keep, keep-append, ◌⊎◌, length, arith, append_assoc,
  append-nil, Bool-cases, inl, inr,
}
use fastiron_tofu.Config.Command.{Command, Document}
use fastiron_tofu.Config.Stp.{
  StpVlan, stp_vlan, stp_vlans, is_vlan_header, add_policy, policies_step, sort_policies,
}
use fastiron_tofu.Config.Stp.Header.{is_vlan, listed}
use fastiron_tofu.Config.Stp.Policy.{stp_vlan-StatesPolicy, stated_policy}
use fastiron_tofu.Config.Stp.Sorting.{
  AreDistinct, IsAscending, AreDistinct-snoc, sort_policies-All, sort_policies-IsAscending, has_id,
  has_id-snoc, has_id-sort_policies,
}

-- The answer of STPVLAN for the identity of a policy.
abbrev pub IsRead : Document → StpVlan → Type 0
IsRead d p = (remaining : List Bytes) × (stp_vlan d p.vlan_id ≡ ok (some p, remaining))

-- A VLAN that STPVLAN answers for has at most one header, and the policy has its identity.
length-listed : (h : Option ℕ) → length (listed h) ≤ 1
length-listed none = omega arith
length-listed (some i) = omega arith

abbrev identity_or : ℕ → Option StpVlan → ℕ
identity_or id none = id
identity_or id (some p) = p.vlan_id

stated_policy-identity :
    (id : ℕ) (cs : List Command) (p : StpVlan) → some p ≡ stated_policy id cs → p.vlan_id ≡ id
stated_policy-identity id [] p e = cc
stated_policy-identity id (c ∷ cs) p e = ap (λ o. identity_or id o) e

at_most_one_header :
    (d : Document) (id : ℕ) (o : Option StpVlan) (remaining : List Bytes)
    → stp_vlan d id ≡ ok (o, remaining)
    → count (is_vlan id) d.commands ≤ 1
at_most_one_header d id o remaining e =
    let (header, (only, more)) = stp_vlan-StatesPolicy d id o remaining e in
    omega (arith, length-places (is_vlan id) 0 d.commands, ap length only, length-listed header)

policy_identity :
    (d : Document) (id : ℕ) (p : StpVlan) (remaining : List Bytes)
    → stp_vlan d id ≡ ok (some p, remaining)
    → p.vlan_id ≡ id
policy_identity d id p remaining e =
    let (header, (only, (stated, more))) = stp_vlan-StatesPolicy d id (some p) remaining e in
    stated_policy-identity id _ p stated

-- A header's VLAN states no policy, or has one in the list.
abbrev pub IsAnswered : Document → List StpVlan → Command → Type 0
IsAnswered d ps c =
    ((remaining : List Bytes) × (stp_vlan d c.number ≡ ok (none, remaining)))
    ⊎ (has_id c.number ps ≡ true)

IsAnswered-snoc :
    (d : Document) (ps : List StpVlan) (p : StpVlan) (c : Command)
    → IsAnswered d ps c
    → IsAnswered d (ps ++ p ∷ []) c
IsAnswered-snoc d ps p c (inl none_stated) = inl none_stated
IsAnswered-snoc d ps p c (inr has) = inr (rw (has_id-snoc c.number ps p, has) refl)

not_ok {ℓ κ} : {A : Type ℓ} {B : Type κ} {e : Error} {a : A} → err e ≡ ok a → B
not_ok e = absurd cc

-- What the loop has gathered from the commands `done`, with `rest` to come.
record IsGathered (d : Document) (rest : List Command) (ps : List StpVlan) : Type 0 where
  done : List Command
  split : d.commands ≡ done ++ rest
  distinct : AreDistinct ps
  seen : All (λ p. 1 ≤ count (is_vlan p.vlan_id) done) ps
  read : All (IsRead d) ps
  answered : All (IsAnswered d ps) (keep is_vlan_header done)

module _ (d : Document) (c : Command) (rest : List Command) (ps : List StpVlan)
    (g : IsGathered d (c ∷ rest) ps) where
  -- The commands behind, with this one.
  behind : d.commands ≡ (g.done ++ c ∷ []) ++ rest
  behind = g.split ∙ sym (append_assoc g.done (c ∷ []) rest)

  still_seen : All (λ p. 1 ≤ count (is_vlan p.vlan_id) (g.done ++ c ∷ [])) ps
  still_seen =
      All-map ps
        (λ p h. let e = count-append (is_vlan p.vlan_id) g.done (c ∷ []) in omega (arith, h, e))
        g.seen

  -- A command that adds nothing.
  without : All (IsAnswered d ps) (keep is_vlan_header (c ∷ [])) → IsGathered d rest ps
  without here = record {
    done = g.done ++ c ∷ [];
    split = behind;
    distinct = g.distinct;
    seen = still_seen;
    read = g.read;
    answered = rw (keep-append is_vlan_header g.done (c ∷ [])) (
        All-append (IsAnswered d ps) (keep is_vlan_header g.done) (keep is_vlan_header (c ∷ []))
          g.answered here);
  }

  -- A header with a policy: no policy before it has its identity.
  with_policy :
      (p : StpVlan) (remaining : List Bytes)
      → is_vlan_header c ≡ true
      → stp_vlan d c.number ≡ ok (some p, remaining)
      → IsGathered d rest (ps ++ p ∷ [])
  with_policy p remaining header e = record {
    done = g.done ++ c ∷ [];
    split = behind;
    distinct = AreDistinct-snoc ps p g.distinct apart;
    seen =
        All-append (λ q. 1 ≤ count (is_vlan q.vlan_id) (g.done ++ c ∷ [])) ps (p ∷ []) still_seen
          (omega (arith, counted_here, count-append (is_vlan p.vlan_id) g.done (c ∷ [])), tt);
    read = All-append (IsRead d) ps (p ∷ []) g.read (own, tt);
    answered =
        rw (keep-append is_vlan_header g.done (c ∷ []), header)
          (All-append (IsAnswered d (ps ++ p ∷ [])) (keep is_vlan_header g.done) (c ∷ [])
            (All-map (keep is_vlan_header g.done) (λ x. IsAnswered-snoc d ps p x) g.answered)
            (inr (rw (has_id-snoc c.number ps p) (ground (arith, same))), tt));
  }
    where
      same : p.vlan_id ≡ c.number
      same = policy_identity d c.number p remaining e

      own : IsRead d p
      own = (remaining, subst (λ n. stp_vlan d n ≡ ok (some p, remaining)) (sym same) e)

      counted_here : count (is_vlan p.vlan_id) (c ∷ []) ≡ 1
      counted_here = ground (arith, same, header)

      total : count (is_vlan p.vlan_id) g.done + 1 + count (is_vlan p.vlan_id) rest ≤ 1
      total =
          let at_most = at_most_one_header d p.vlan_id (some p) own.0 own.1 in
          let whole = ap (count (is_vlan p.vlan_id)) behind in
          omega (
            arith,
            at_most,
            whole,
            counted_here,
            count-append (is_vlan p.vlan_id) (g.done ++ c ∷ []) rest,
            count-append (is_vlan p.vlan_id) g.done (c ∷ []),
          )

      apart : All (λ q. q.vlan_id ≢ p.vlan_id) ps
      apart =
          All-map ps
            (λ q h equal.
              let h' : 1 ≤ count (is_vlan p.vlan_id) g.done =
                subst (λ n. 1 ≤ count (is_vlan n) g.done) equal h in
              absurd (omega (arith, h', total)))
            g.seen

  add_policy-IsGathered :
      (r : Result (Option StpVlan × List Bytes)) {qs : List StpVlan}
      → is_vlan_header c ≡ true
      → stp_vlan d c.number ≡ r
      → add_policy c.number ps r ≡ ok qs
      → IsGathered d rest qs
  add_policy-IsGathered (err x) header read e = cc
  add_policy-IsGathered (ok (none, remaining)) header read e =
      subst (IsGathered d rest) (ok-injective e) (without (rw header (inl (remaining, read), tt)))
  add_policy-IsGathered (ok (some p, remaining)) header read e =
      subst (IsGathered d rest) (ok-injective e) (with_policy p remaining header read)

  policies_step-IsGathered :
      (i : ℕ) {qs : List StpVlan} → policies_step d i c ps ≡ ok qs → IsGathered d rest qs
  unfolding policies_step
  policies_step-IsGathered i e = elim (Bool-cases (is_vlan_header c)) [
    | inr other ↦ subst (IsGathered d rest) (ok-injective (rw other at e)) (without (rw other tt))
    | inl header ↦ elim (Bool-cases c.valid) [
      | inl valid ↦
          add_policy-IsGathered (stp_vlan d c.number) header refl (rw (header, valid) at e)
      | inr malformed ↦ not_ok (rw (header, malformed) at e)
    ]
  ]

-- STPVLANs in full: identities ascend, each policy is STPVLAN's, and no header is left out.
abbrev pub StatesAll : Document → List StpVlan → Type 0
StatesAll d ps =
    IsAscending ps × (All (IsRead d) ps × All (IsAnswered d ps) (keep is_vlan_header d.commands))

IsGathered-StatesAll :
    (d : Document) (ps : List StpVlan) → IsGathered d [] ps → StatesAll d (sort_policies ps)
IsGathered-StatesAll d ps g =
    let all_done : d.commands ≡ g.done = g.split ∙ append-nil g.done in
    (
      sort_policies-IsAscending ps g.distinct,
      (
        sort_policies-All (IsRead d) ps g.read,
        subst (λ cs. All (IsAnswered d (sort_policies ps)) (keep is_vlan_header cs)) (sym all_done)
            (All-map (keep is_vlan_header g.done) (λ c. sorted c) g.answered),
      ),
    )
  where
    sorted : (c : Command) → IsAnswered d ps c → IsAnswered d (sort_policies ps) c
    sorted c (inl stated) = inl stated
    sorted c (inr has) = inr (has_id-sort_policies c.number ps ∙ has)

-- The policies that STPVLANs returns ascend strictly in their identities, each is the answer of
-- STPVLAN for its identity, and every top-level VLAN header of the document is one for which
-- STPVLAN states no policy or whose identity is among them.
pub stp_vlans-StatesAll : (d : Document) (ps : List StpVlan) → stp_vlans d ≡ ok ps → StatesAll d ps
unfolding stp_vlans
stp_vlans-StatesAll d ps e =
    let (gathered, looped, result) =
      >>=-eq-ok (loop (policies_step d) 0 d.commands []) (λ ps. ok (sort_policies ps)) e in
    let start : IsGathered d d.commands [] = record {
      done = [];
      split = refl;
      distinct = tt;
      seen = tt;
      read = tt;
      answered = tt;
    } in
    let (n, g) =
      loop_inv (λ i rest ps. IsGathered d rest ps) (policies_step d)
        (λ i c cs s t h step. policies_step-IsGathered d c cs s h i step) 0 d.commands [] start
        looped in
    subst (StatesAll d) (ok-injective result) (IsGathered-StatesAll d gathered g)
