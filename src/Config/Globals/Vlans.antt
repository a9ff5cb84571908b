-- ===== src/Config/Globals/Vlans.antt =====
-- The map that `VLANs` builds, against the positions of the VLAN headers.
use fastiron_tofu.Prelude.{
  ℕ, ◌+◌, ◌≡◌, ◌≤◌, refl, subst, Bool-cases, sym, ◌∙◌, inl, inr, true, false, ◌&&◌, List, [], ◌∷◌,
  ◌++◌, none, some, ok, loop_inv, ◌==◌, arith, length, get_elem?, get_elem?-snoc, append_assoc,
  length-append, get_elem?-append, get_elem?-append_last, append-nil, get_elem?-lt_length,
}
use fastiron_tofu.Config.Command.{Command, Document, is_top, vlan_header}
use fastiron_tofu.Config.Globals.{vlans, vlans_step, lookup_vlan, has_vlan}

-- A top-level VLAN header with this identity.
pub record IsVlanHeader (id : ℕ) (c : Command) : Type 0 where
  pub top : is_top c ≡ true
  pub header : c.kind ≡ vlan_header
  pub valid : c.valid ≡ true
  pub number_eq : c.number ≡ id
  pub ge_one : 1 ≤ id
  pub le_4095 : id ≤ 4095

-- The map holds exactly the headers, each at its position.
pub record MapsVlans (cs : List Command) (m : List (ℕ × ℕ)) : Type 0 where
  pub sound :
      (id place : ℕ)
      → lookup_vlan id m ≡ some place
      → (c : Command) × (get_elem? cs place ≡ some c) × IsVlanHeader id c
  pub complete :
      (place : ℕ) (c : Command)
      → get_elem? cs place ≡ some c
      → is_top c ≡ true
      → c.kind ≡ vlan_header
      → lookup_vlan c.number m ≡ some place

MapsVlans-nil : MapsVlans [] []
unfolding lookup_vlan
MapsVlans-nil = record {
  sound = λ id place h. absurd (ground arith);
  complete = λ place c h. absurd (ground arith);
}

lookup_vlan-ne_none : (id : ℕ) (m : List (ℕ × ℕ)) → has_vlan id m ≡ false → lookup_vlan id m ≡ none
unfolding lookup_vlan
lookup_vlan-ne_none id [] h = refl
lookup_vlan-ne_none id ((j, p) ∷ m) h = ground (arith, lookup_vlan-ne_none id m)

module _ (cs : List Command) (c : Command) (m : List (ℕ × ℕ)) (old : MapsVlans cs m) where
  MapsVlans-skip : is_top c && c.kind == vlan_header ≡ false → MapsVlans (cs ++ c ∷ []) m
  MapsVlans-skip h = record {
    sound = λ id place e.
        let (x, at, is) = old.sound id place e in
        (x, get_elem?-append cs (c ∷ []) place (get_elem?-lt_length cs place at) ∙ at, is);
    complete = λ place x at top kind. elim (get_elem?-snoc cs c place at) [
      | inl (e, f) ↦ absurd (ground arith)
      | inr before ↦ old.complete place x before top kind
    ];
  }

  module _ (h : is_top c && c.kind == vlan_header ≡ true) (v : c.valid ≡ true) (lo : 1 ≤ c.number)
      (hi : c.number ≤ 4095) (fresh : has_vlan c.number m ≡ false) where
    insert_sound :
        (id place : ℕ)
        → lookup_vlan id ((c.number, length cs) ∷ m) ≡ some place
        → (x : Command) × (get_elem? (cs ++ c ∷ []) place ≡ some x) × IsVlanHeader id x
    unfolding lookup_vlan
    insert_sound id place e = elim (Bool-cases (c.number == id)) [
      | inl same ↦ (
        c,
        ground (arith, get_elem?-append_last cs c),
        record {
          top = ground arith;
          header = ground arith;
          valid = v;
          number_eq = ground arith;
          ge_one = ground arith;
          le_4095 = ground arith;
        },
      )
      | inr other ↦
          let (x, at, is) = old.sound id place (ground arith) in
          (x, get_elem?-append cs (c ∷ []) place (get_elem?-lt_length cs place at) ∙ at, is)
    ]

    insert_complete :
        (place : ℕ) (x : Command)
        → get_elem? (cs ++ c ∷ []) place ≡ some x
        → is_top x ≡ true
        → x.kind ≡ vlan_header
        → lookup_vlan x.number ((c.number, length cs) ∷ m) ≡ some place
    unfolding lookup_vlan
    insert_complete place x at top kind = elim (get_elem?-snoc cs c place at) [
      | inl (e, f) ↦ ground arith
      | inr before ↦
          ground (arith, old.complete place x before top kind, lookup_vlan-ne_none c.number m fresh)
    ]

    MapsVlans-insert : MapsVlans (cs ++ c ∷ []) ((c.number, length cs) ∷ m)
    MapsVlans-insert = record { sound = insert_sound; complete = insert_complete }

record Inv (all : List Command) (i : ℕ) (rest : List Command) (m : List (ℕ × ℕ)) : Type 0 where
  done : List Command
  splits : all ≡ done ++ rest
  at : i ≡ length done
  maps : MapsVlans done m

Inv-step :
    (all : List Command) (i : ℕ) (c : Command) (rest : List Command) (m n : List (ℕ × ℕ))
    → Inv all i (c ∷ rest) m
    → vlans_step i c m ≡ ok n
    → Inv all (i + 1) rest n
unfolding vlans_step
Inv-step all i c rest m n inv e = record {
  done = inv.done ++ c ∷ [];
  splits = inv.splits ∙ sym (append_assoc inv.done (c ∷ []) rest);
  at = omega (arith, inv.at, length-append inv.done (c ∷ []));
  maps = elim (Bool-cases (is_top c && c.kind == vlan_header)) [
    | inl header ↦ subst (MapsVlans (inv.done ++ c ∷ [])) (ground (arith, inv.at)) (
        MapsVlans-insert inv.done c m inv.maps header (ground arith) (ground arith) (ground arith)
          (ground arith))
    | inr other ↦
        subst (MapsVlans (inv.done ++ c ∷ [])) (ground arith)
          (MapsVlans-skip inv.done c m inv.maps other)
  ];
}

-- The map that VLANs returns holds exactly the top-level VLAN headers of the document, each
-- identity with its position, and every header it holds is valid and between 1 and 4095.
pub vlans-MapsVlans : (d : Document) {m : List (ℕ × ℕ)} → vlans d ≡ ok m → MapsVlans d.commands m
unfolding vlans
vlans-MapsVlans d {m} e =
    let start : Inv d.commands 0 d.commands [] = record {
      done = [];
      splits = refl;
      at = refl;
      maps = MapsVlans-nil;
    } in
    let (n, inv) =
      loop_inv (Inv d.commands) vlans_step (Inv-step d.commands) 0 d.commands [] start e in
    subst (λ l. MapsVlans l m) (sym (inv.splits ∙ append-nil inv.done)) inv.maps
