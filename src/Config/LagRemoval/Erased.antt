-- ===== src/Config/LagRemoval/Erased.antt =====
-- An aggregate that CheckLAGRemoval lets go has no settings that its deletion erases.
use fastiron_tofu.Prelude.{
  ℕ, ◌≡◌, refl, sym, ◌∙◌, ap, Bool, true, false, not, ◌&&◌, ◌||◌, List, [], ◌∷◌, ◌++◌, Option,
  Bytes, codes, Result, ok, ok-ne-err, ◌>>=◌, >>=-eq-ok, ◌>>◌, reject_if, reject_if-eq-ok, keep,
  All, All-map, arith, ◌==◌, ==_iff, ◌⊎◌, inl, inr, Bool-cases, bytes_eq, bytes_eq_iff, has_text,
}
use fastiron_tofu.Config.Command.{Command, Document, lag_ports, admin_disable, port_name}
use fastiron_tofu.Config.Numbers.Decimal.{format_uint}
use fastiron_tofu.Config.Select.{for_selected, for_selected_lem}
use fastiron_tofu.Config.Globals.{has_lag}
use fastiron_tofu.Config.Interface.{interface_header, is_child}
use fastiron_tofu.Config.MemberName.{lag_named_port}
use fastiron_tofu.Config.Ports.{PortMap, names_of, resolve_ports}
use fastiron_tofu.Config.Ve.{has_ranges}
use fastiron_tofu.Config.LagRemoval.Members.{member_inventory-Ports}
use fastiron_tofu.Config.LagRemoval.Inventory.{
  IsNamed, member_inventory-IsNamed, Covers, member_inventory-Covers,
}
use fastiron_tofu.Config.LagRemoval.Block.{
  IsFirst, first_header-IsFirst, GivesMembers, body_all-GivesMembers,
}
use fastiron_tofu.Config.LagRemoval.{
  first_header, member_inventory, ActualState, is_in_block, actual_body, block_command,
  removal_step, removal_all, check_lag_removal,
}

-- A command of the block that says what survives the removal: the member list, a disable of
-- members, or the name of a member.
abbrev pub IsSpared : PortMap → Command → Type 0
IsSpared actual c =
    (c.kind ≡ lag_ports)
    ⊎ (((c.kind ≡ admin_disable)
          × ((c.valid ≡ true)
              × ((has_ranges c.port_ranges ≡ true)
                  × ((names : List Bytes) × (resolve_ports c actual ≡ ok names)))))
        ⊎ ((c.kind ≡ port_name) × (has_text (lag_named_port c.text) (names_of actual) ≡ true)))

abbrev pub IsUntouched : Option ℕ → Option ℕ → PortMap → Command → Type 0
IsUntouched virtual header actual c =
    (is_child virtual c ≡ false) × (is_in_block header c ≡ true → IsSpared actual c)

both : (x y : Bool) → (x && y) ≡ true → (x ≡ true) × (y ≡ true)
both x y h = (ground arith, ground arith)

block_command-IsSpared :
    (actual : PortMap) (c : Command) → block_command actual c ≡ ok tt → IsSpared actual c
unfolding block_command
block_command-IsSpared actual c e =
    let disables = c.kind == admin_disable && c.valid && has_ranges c.port_ranges in
    let names_member = c.kind == port_name && has_text (lag_named_port c.text) (names_of actual) in
    elim (Bool-cases disables) [
      | inl off ↦
          let (names, resolved, _) =
            >>=-eq-ok (resolve_ports c actual) (λ names. ok tt) (rw off at e) in
          let (kind, (valid, ranges)) =
            all_of (c.kind == admin_disable) c.valid (has_ranges c.port_ranges) off in
          inr (inl ((==_iff c.kind admin_disable).0 kind, (valid, (ranges, (names, resolved)))))
      | inr on ↦ elim (Bool-cases names_member) [
        | inl named ↦
            let (kind, member) =
              both (c.kind == port_name) (has_text (lag_named_port c.text) (names_of actual))
                named in
            inr (inr ((==_iff c.kind port_name).0 kind, member))
        | inr other ↦ absurd (ok-ne-err (sym (rw (on, other) at e)))
      ]
    ]
  where
    all_of : (x y z : Bool) → (x && y && z) ≡ true → (x ≡ true) × ((y ≡ true) × (z ≡ true))
    all_of x y z h = (ground arith, (ground arith, ground arith))

removal_step-IsUntouched :
    (virtual header : Option ℕ) (actual : PortMap) (c : Command)
    → removal_step virtual header actual c ≡ ok tt
    → IsUntouched virtual header actual c
unfolding removal_step
removal_step-IsUntouched virtual header actual c e = elim (Bool-cases (is_child virtual c)) [
  | inl child ↦ absurd (ok-ne-err (sym (rw child at e)))
  | inr apart ↦ (
    apart,
    λ inside. elim (Bool-cases (c.kind == lag_ports)) [
      | inl ports ↦ inl ((==_iff c.kind lag_ports).0 ports)
      | inr other ↦ block_command-IsSpared actual c (rw (apart, inside, other) at e)
    ],
  )
]

removal_all-IsUntouched :
    (virtual header : Option ℕ) (actual : PortMap) (cs : List Command)
    → removal_all virtual header actual cs ≡ ok tt
    → All (IsUntouched virtual header actual) cs
unfolding removal_all
removal_all-IsUntouched virtual header actual [] e = tt
removal_all-IsUntouched virtual header actual (c ∷ cs) e =
    let (_, first, later) =
      >>=-eq-ok (removal_step virtual header actual c) (λ _. removal_all virtual header actual cs)
        e in
    (
      removal_step-IsUntouched virtual header actual c first,
      removal_all-IsUntouched virtual header actual cs later,
    )

abbrev pub in_list : Option ℕ → Command → Bool
in_list header c = is_in_block header c && c.kind == lag_ports

-- What an aggregate that may go is: its block, the caller's ports, the members in the block, and
-- commands that survive.
pub record IsRemovable (d : Document) (id : ℕ) (members : List Bytes) : Type 0 where
  pub virtual : Option ℕ
  pub header : Option ℕ
  pub inventory : PortMap
  pub actual : PortMap
  pub confirmed : has_lag d id ≡ ok true
  pub found : interface_header d (codes "lag " ++ format_uint id) ≡ ok virtual
  pub first : IsFirst id 0 d.commands header
  pub stated : All (λ p. has_text p.0 members ≡ true) inventory
  pub covered : Covers inventory members
  pub named : IsNamed inventory
  pub listed : GivesMembers inventory (keep (in_list header) d.commands) actual
  pub untouched : All (IsUntouched virtual header actual) d.commands

own_members : (members : List Bytes) → All (λ n. has_text n members ≡ true) members
unfolding has_text
own_members [] = tt
own_members (x ∷ xs) = (
  (let same : bytes_eq x x ≡ true = (bytes_eq_iff x x).1 refl in rw same refl),
  All-map xs (λ n h. or_true (bytes_eq x n) h) (own_members xs),
)
  where
    or_true : (b : Bool) {c : Bool} → c ≡ true → (b || c) ≡ true
    or_true true h = refl
    or_true false h = h

when_not : (b : Bool) → not b ≡ false → b ≡ true
when_not b h = ground arith

-- Where CheckLAGRemoval raises no objection, HasLAG confirms the aggregate, whose block stands
-- below its first header, and no command stands below the header of its virtual interface. The
-- actual members are those of the one valid member list in the block, or none if there is no list:
-- it resolves among exactly the ports that the caller named, and names none twice. Each other
-- command of the block is a valid disable with ranges of ports that resolve among the actual
-- members, or the name of an actual member.
pub check_lag_removal-IsRemovable :
    (d : Document) (id : ℕ) (members : List Bytes)
    → check_lag_removal d id members ≡ ok tt
    → IsRemovable d id members
unfolding check_lag_removal
check_lag_removal-IsRemovable d id members e =
    let (exists, answered, e1) =
      >>=-eq-ok (has_lag d id)
        (λ exists.
          reject_if (not exists) "cannot confirm the LAG configuration block before deletion"
          >> confirmed d id members)
        e in
    let (_, there, e2) =
      >>=-eq-ok
        (reject_if (not exists) "cannot confirm the LAG configuration block before deletion")
        (λ _. confirmed d id members) e1 in
    let (virtual, at, e3) =
      >>=-eq-ok (interface_header d (codes "lag " ++ format_uint id))
        (λ virtual. known d id members virtual) e2 in
    let (inventory, listed, e4) =
      >>=-eq-ok (member_inventory members []) (λ inventory. inventoried d id virtual inventory)
        e3 in
    let (s, looped, e5) =
      >>=-eq-ok
        (for_selected (in_list (first_header id 0 d.commands)) (actual_body inventory) d.commands
          nothing)
        (λ s. removal_all virtual (first_header id 0 d.commands) s.actual d.commands) e4 in
    let mine =
      member_inventory-Ports (λ n. has_text n members ≡ true) members [] inventory
        (own_members members) tt listed in
    record {
      virtual = virtual;
      header = first_header id 0 d.commands;
      inventory = inventory;
      actual = s.actual;
      confirmed = answered ∙ ap ok (when_not exists (reject_if-eq-ok _ _ there));
      found = at;
      first = first_header-IsFirst id 0 d.commands;
      stated = mine;
      covered = member_inventory-Covers members inventory listed;
      named = member_inventory-IsNamed members [] inventory tt listed;
      listed =
          body_all-GivesMembers inventory (keep (in_list (first_header id 0 d.commands)) d.commands)
            s (member_inventory-IsNamed members [] inventory tt listed)
            (own_members (names_of inventory))
            (sym (
                for_selected_lem (in_list (first_header id 0 d.commands)) (actual_body inventory)
                  d.commands nothing)
              ∙ looped);
      untouched =
          removal_all-IsUntouched virtual (first_header id 0 d.commands) s.actual d.commands e5;
    }
  where
    nothing : ActualState
    nothing = record { seen = false; actual = [] }

    inventoried : Document → ℕ → Option ℕ → PortMap → Result (Unit {0})
    inventoried d id virtual inventory =
        for_selected (in_list (first_header id 0 d.commands)) (actual_body inventory) d.commands
          nothing
        >>= λ s. removal_all virtual (first_header id 0 d.commands) s.actual d.commands

    known : Document → ℕ → List Bytes → Option ℕ → Result (Unit {0})
    known d id members virtual =
        member_inventory members [] >>= λ inventory. inventoried d id virtual inventory

    confirmed : Document → ℕ → List Bytes → Result (Unit {0})
    confirmed d id members = interface_header d (codes "lag " ++ format_uint id) >>= λ virtual.
        known d id members virtual
