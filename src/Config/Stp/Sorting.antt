-- ===== src/Config/Stp/Sorting.antt =====
-- The order in which STPVLANs returns its policies.
use fastiron_tofu.Prelude.{
  ℕ, ◌<◌, ◌≡◌, ◌≢◌, refl, sym, ◌∙◌, ap, Bool, false, ◌||◌, List, [], ◌∷◌, ◌++◌, All, All-append,
  All-map, ltb, ◌==◌, arith, Bool-cases, inl, inr,
}
use fastiron_tofu.Config.Stp.{StpVlan, insert_policy, sort_policies}

-- Facts about sorting: each member of the result is a member, and distinct identities ascend.
module _ (P : StpVlan → Type 0) where
  insert_policy-All :
      (p : StpVlan) (ps : List StpVlan) → P p → All P ps → All P (insert_policy p ps)
  unfolding insert_policy
  insert_policy-All p [] of_p of_ps = (of_p, tt)
  insert_policy-All p (q ∷ qs) of_p (of_q, of_qs) = elim (Bool-cases (ltb q.vlan_id p.vlan_id)) [
    | inl e ↦ rw e (of_q, insert_policy-All p qs of_p of_qs)
    | inr e ↦ rw e (of_p, (of_q, of_qs))
  ]

  pub sort_policies-All : (ps : List StpVlan) → All P ps → All P (sort_policies ps)
  unfolding sort_policies
  sort_policies-All [] of_ps = tt
  sort_policies-All (p ∷ ps) (of_p, of_ps) =
      insert_policy-All p (sort_policies ps) of_p (sort_policies-All ps of_ps)

abbrev pub IsAscending : List StpVlan → Type 0
IsAscending [] = Unit
IsAscending (p ∷ ps) = All (λ q. p.vlan_id < q.vlan_id) ps × IsAscending ps

abbrev pub AreDistinct : List StpVlan → Type 0
AreDistinct [] = Unit
AreDistinct (p ∷ ps) = All (λ q. q.vlan_id ≢ p.vlan_id) ps × AreDistinct ps

insert_policy-IsAscending :
    (p : StpVlan) (ps : List StpVlan)
    → All (λ q. q.vlan_id ≢ p.vlan_id) ps
    → IsAscending ps
    → IsAscending (insert_policy p ps)
unfolding insert_policy
insert_policy-IsAscending p [] apart up = (tt, tt)
insert_policy-IsAscending p (q ∷ qs) (other, apart) (above, up) =
    elim (Bool-cases (ltb q.vlan_id p.vlan_id)) [
      | inl e ↦ rw e (
        insert_policy-All (λ r. q.vlan_id < r.vlan_id) p qs (ground arith) above,
        insert_policy-IsAscending p qs apart up,
      )
      | inr e ↦ rw e (
        (
          ground arith,
          All-map qs (λ r lt. let h : q.vlan_id < r.vlan_id = lt in ground arith) above,
        ),
        (above, up),
      )
    ]

pub sort_policies-IsAscending :
    (ps : List StpVlan) → AreDistinct ps → IsAscending (sort_policies ps)
unfolding sort_policies
sort_policies-IsAscending [] distinct = tt
sort_policies-IsAscending (p ∷ ps) (apart, distinct) =
    insert_policy-IsAscending p (sort_policies ps)
      (sort_policies-All (λ q. q.vlan_id ≢ p.vlan_id) ps apart)
      (sort_policies-IsAscending ps distinct)

pub AreDistinct-snoc :
    (ps : List StpVlan) (p : StpVlan)
    → AreDistinct ps
    → All (λ q. q.vlan_id ≢ p.vlan_id) ps
    → AreDistinct (ps ++ p ∷ [])
AreDistinct-snoc [] p distinct apart = (tt, tt)
AreDistinct-snoc (q ∷ ps) p (others, distinct) (apart_q, apart) = (
  All-append (λ r. r.vlan_id ≢ q.vlan_id) ps (p ∷ []) others ((λ e. apart_q (sym e)), tt),
  AreDistinct-snoc ps p distinct apart,
)

-- Whether a policy has the identity.
abbrev pub has_id : ℕ → List StpVlan → Bool
has_id n [] = false
has_id n (p ∷ ps) = p.vlan_id == n || has_id n ps

pub has_id-snoc :
    (n : ℕ) (ps : List StpVlan) (p : StpVlan)
    → has_id n (ps ++ p ∷ []) ≡ (has_id n ps || p.vlan_id == n)
has_id-snoc n [] p = ground arith
has_id-snoc n (q ∷ ps) p = ground (arith, has_id-snoc n ps p)

has_id-insert_policy :
    (n : ℕ) (p : StpVlan) (ps : List StpVlan) → has_id n (insert_policy p ps) ≡ has_id n (p ∷ ps)
unfolding insert_policy
has_id-insert_policy n p [] = refl
has_id-insert_policy n p (q ∷ qs) = ground (arith, has_id-insert_policy n p qs)

pub has_id-sort_policies : (n : ℕ) (ps : List StpVlan) → has_id n (sort_policies ps) ≡ has_id n ps
unfolding sort_policies
has_id-sort_policies n [] = refl
has_id-sort_policies n (p ∷ ps) =
    has_id-insert_policy n p (sort_policies ps)
    ∙ ap (λ b. p.vlan_id == n || b) (has_id-sort_policies n ps)
