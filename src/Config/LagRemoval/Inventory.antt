-- ===== src/Config/LagRemoval/Inventory.antt =====
-- The ports of the members that CheckLAGRemoval is given.
use fastiron_tofu.Prelude.{
  ◌≡◌, refl, sym, subst, true, false, ◌||◌, List, [], ◌∷◌, some, Bytes, ok, ok-injective, ok-ne-err,
  All, arith, ◌⊎◌, inl, inr, Bool-cases, Option-cases, bytes_eq, bytes_eq_iff, has_text,
}
use fastiron_tofu.Config.Command.{PortId}
use fastiron_tofu.Config.Ports.{PortMap, names_of, ethernet_id}
use fastiron_tofu.Config.LagRemoval.{put_port, member_inventory}

-- A port stands under the name that it has.
abbrev pub IsNamed : PortMap → Type 0
IsNamed ports = All (λ p. ethernet_id p.0 ≡ some p.1) ports

put_port-IsNamed :
    (name : Bytes) (id : PortId) (ports : PortMap)
    → ethernet_id name ≡ some id
    → IsNamed ports
    → IsNamed (put_port name id ports)
unfolding put_port
put_port-IsNamed name id [] h named = (h, tt)
put_port-IsNamed name id ((n, old) ∷ more) h (here, named) = elim (Bool-cases (bytes_eq n name)) [
  | inl same ↦
      rw same (subst (λ x. ethernet_id x ≡ some id) (sym ((bytes_eq_iff n name).0 same)) h, named)
  | inr other ↦ rw other (here, put_port-IsNamed name id more h named)
]

pub member_inventory-IsNamed :
    (names : List Bytes) (ports result : PortMap)
    → IsNamed ports
    → member_inventory names ports ≡ ok result
    → IsNamed result
unfolding member_inventory
member_inventory-IsNamed [] ports result named e = subst IsNamed (ok-injective e) named
member_inventory-IsNamed (name ∷ names) ports result named e =
    elim (Option-cases (ethernet_id name)) [
      | inl missing ↦ absurd (ok-ne-err (sym (rw missing at e)))
      | inr (id, found) ↦
          member_inventory-IsNamed names (put_port name id ports) result
            (put_port-IsNamed name id ports found named) (rw found at e)
    ]

put_port-has_text :
    (name n : Bytes) (id : PortId) (ports : PortMap)
    → (bytes_eq name n ≡ true) ⊎ (has_text n (names_of ports) ≡ true)
    → has_text n (names_of (put_port name id ports)) ≡ true
unfolding put_port has_text
put_port-has_text name n id [] (inl same) = rw same refl
put_port-has_text name n id [] (inr h) = absurd (ground arith)
put_port-has_text name n id ((m, old) ∷ more) h = elim (Bool-cases (bytes_eq m name)) [
  | inl here ↦
      let at : m ≡ name = (bytes_eq_iff m name).0 here in
      rw here (kept h (subst (λ x. bytes_eq x n ≡ true → bytes_eq m n ≡ true) at (λ k. k)))
  | inr away ↦ rw away (elim (Bool-cases (bytes_eq m n)) [
    | inl found ↦ rw found refl
    | inr lost ↦ rw lost (put_port-has_text name n id more (later h lost))
  ])
]
  where
    kept :
        (bytes_eq name n ≡ true) ⊎ ((bytes_eq m n || has_text n (names_of more)) ≡ true)
        → (bytes_eq name n ≡ true → bytes_eq m n ≡ true)
        → (bytes_eq m n || has_text n (names_of more)) ≡ true
    kept (inl same) into = rw (into same) refl
    kept (inr known) into = known

    later :
        (bytes_eq name n ≡ true) ⊎ ((bytes_eq m n || has_text n (names_of more)) ≡ true)
        → bytes_eq m n ≡ false
        → (bytes_eq name n ≡ true) ⊎ (has_text n (names_of more) ≡ true)
    later (inl same) lost = inl same
    later (inr known) lost = inr (rw lost at known)

member_inventory-has_text :
    (n : Bytes) (names : List Bytes) (ports result : PortMap)
    → (has_text n (names_of ports) ≡ true) ⊎ (has_text n names ≡ true)
    → member_inventory names ports ≡ ok result
    → has_text n (names_of result) ≡ true
unfolding member_inventory has_text
member_inventory-has_text n [] ports result (inl h) e =
    subst (λ p. has_text n (names_of p) ≡ true) (ok-injective e) h
member_inventory-has_text n [] ports result (inr h) e = absurd (ground arith)
member_inventory-has_text n (name ∷ names) ports result h e =
    elim (Option-cases (ethernet_id name)) [
      | inl missing ↦ absurd (ok-ne-err (sym (rw missing at e)))
      | inr (id, found) ↦
          member_inventory-has_text n names (put_port name id ports) result (moved id h)
            (rw found at e)
    ]
  where
    moved :
        (id : PortId)
        → (has_text n (names_of ports) ≡ true) ⊎ ((bytes_eq name n || has_text n names) ≡ true)
        → (has_text n (names_of (put_port name id ports)) ≡ true) ⊎ (has_text n names ≡ true)
    moved id (inl known) = inl (put_port-has_text name n id ports (inr known))
    moved id (inr stated) = elim (Bool-cases (bytes_eq name n)) [
      | inl same ↦ inl (put_port-has_text name n id ports (inl same))
      | inr other ↦ inr (rw other at stated)
    ]

-- Each name of a list is one of the ports.
abbrev pub Covers : PortMap → List Bytes → Type 0
Covers ports names = (n : Bytes) → has_text n names ≡ true → has_text n (names_of ports) ≡ true

pub member_inventory-Covers :
    (names : List Bytes) (result : PortMap)
    → member_inventory names [] ≡ ok result
    → Covers result names
member_inventory-Covers names result e n h = member_inventory-has_text n names [] result (inr h) e
