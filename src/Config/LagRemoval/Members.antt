-- ===== src/Config/LagRemoval/Members.antt =====
-- What holds of each member that CheckLAGRemoval is given holds of each port of its inventory, and
-- of each that resolves.
use fastiron_tofu.Prelude.{
  ◌≡◌, sym, subst, not, List, [], ◌∷◌, ◌++◌, Bytes, ok, ok-injective, ok-ne-err, >>=-eq-ok,
  reject_if, keep, All, All-append, ◌==◌, inl, inr, Bool-cases, Option-cases, bytes_eq, length,
}
use fastiron_tofu.Config.Command.{Command, PortId, PortRange}
use fastiron_tofu.Config.Ports.{
  PortMap, names_of, ethernet_id, in_range, is_bad_range, range_size, resolve_ranges, resolve_ports,
}
use fastiron_tofu.Config.LagRemoval.{put_port, member_inventory}

module _ (P : Bytes → Type 0) where
  abbrev pub Ports : PortMap → Type 0
  Ports ports = All (λ p. P p.0) ports

  put_port-Ports :
      (name : Bytes) (id : PortId) (ports : PortMap)
      → P name
      → Ports ports
      → Ports (put_port name id ports)
  unfolding put_port
  put_port-Ports name id [] h of_ports = (h, tt)
  put_port-Ports name id ((n, old) ∷ more) h (of_n, of_more) = elim (Bool-cases (bytes_eq n name)) [
    | inl same ↦ rw same (of_n, of_more)
    | inr other ↦ rw other (of_n, put_port-Ports name id more h of_more)
  ]

  pub member_inventory-Ports :
      (names : List Bytes) (ports result : PortMap)
      → All P names
      → Ports ports
      → member_inventory names ports ≡ ok result
      → Ports result
  unfolding member_inventory
  member_inventory-Ports [] ports result h of_ports e = subst Ports (ok-injective e) of_ports
  member_inventory-Ports (name ∷ names) ports result (hn, h) of_ports e =
      elim (Option-cases (ethernet_id name)) [
        | inl missing ↦ absurd (ok-ne-err (sym (rw missing at e)))
        | inr (id, found) ↦
            member_inventory-Ports names (put_port name id ports) result h
              (put_port-Ports name id ports hn of_ports) (rw found at e)
      ]

  names-All :
      (span : PortRange) (ports : PortMap)
      → Ports ports
      → All P (names_of (keep (in_range span) ports))
  names-All span [] h = tt
  names-All span (p ∷ ports) (hp, h) = elim (Bool-cases (in_range span p)) [
    | inl here ↦ rw here (hp, names-All span ports h)
    | inr away ↦ rw away (names-All span ports h)
  ]

  names_of-All : (ports : PortMap) → Ports ports → All P (names_of ports)
  names_of-All [] h = tt
  names_of-All (p ∷ ports) (hp, h) = (hp, names_of-All ports h)

  resolve_ranges-All :
      (spans : List PortRange) (ports : PortMap) (before names : List Bytes)
      → Ports ports
      → All P before
      → resolve_ranges spans ports before ≡ ok names
      → All P names
  unfolding resolve_ranges
  resolve_ranges-All [] ports before names h of_before e = subst (All P) (ok-injective e) of_before
  resolve_ranges-All (span ∷ more) ports before names h of_before e =
      let found = names_of (keep (in_range span) ports) in
      let (_, _, e1) = >>=-eq-ok (reject_if (is_bad_range span) _) _ e in
      let (_, _, e2) = >>=-eq-ok (reject_if (not (length found == range_size span)) _) _ e1 in
      resolve_ranges-All more ports (before ++ found) names h
        (All-append P before found of_before (names-All span ports h)) e2

  pub resolve_ports-All :
      (c : Command) (ports : PortMap) (names : List Bytes)
      → Ports ports
      → resolve_ports c ports ≡ ok names
      → All P names
  unfolding resolve_ports
  resolve_ports-All c ports names h e = elim (Bool-cases c.all_ports) [
    | inl every ↦ subst (All P) (ok-injective (rw every at e)) (names_of-All ports h)
    | inr listed ↦ resolve_ranges-All c.port_ranges ports [] names h tt (rw listed at e)
  ]
