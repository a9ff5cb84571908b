-- ===== src/Config/LagRemoval/Block.antt =====
-- The members that CheckLAGRemoval finds in the block of an aggregate, and where the block is.
use fastiron_tofu.Prelude.{
  ℕ, ◌+◌, ◌≡◌, refl, sym, ◌∙◌, ap, subst, Bool, true, false, not, ◌&&◌, ◌||◌, List, [], ◌∷◌, ◌++◌,
  Option, none, some, Bytes, ok, ok-injective, >>=-eq-ok, reject_if, reject_if-eq-ok, All,
  All-append, append-nil, append_assoc, arith, ◌==◌, inl, inr, Bool-cases, bytes_eq, bytes_eq_iff,
  has_text, length,
}
use fastiron_tofu.Config.Command.{Command}
use fastiron_tofu.Config.Select.{body_all}
use fastiron_tofu.Config.Globals.{is_lag_header}
use fastiron_tofu.Config.Ports.{PortMap, names_of, ethernet_id, resolve_ports}
use fastiron_tofu.Config.LagRemoval.Inventory.{IsNamed}
use fastiron_tofu.Config.LagRemoval.Members.{resolve_ports-All}
use fastiron_tofu.Config.LagRemoval.{first_header, find_port, add_members, ActualState, actual_body}

abbrev pub heads : ℕ → Command → Bool
heads id c = is_lag_header c && c.number == id

-- The first header of the aggregate is at this position, or there is none.
abbrev pub IsFirst : ℕ → ℕ → List Command → Option ℕ → Type 0
IsFirst id i cs none = All (λ c. heads id c ≡ false) cs
IsFirst id i cs (some h) =
    (before : List Command) × ((c : Command) × ((after : List Command) × ((cs ≡ before ++ c ∷ after)
          × ((h ≡ i + length before)
              × ((heads id c ≡ true) × All (λ c. heads id c ≡ false) before)))))

pub first_header-IsFirst : (id i : ℕ) (cs : List Command) → IsFirst id i cs (first_header id i cs)
unfolding first_header
first_header-IsFirst id i [] = tt
first_header-IsFirst id i (c ∷ cs) = elim (Bool-cases (heads id c)) [
  | inl here ↦ rw here ([], (c, (cs, (refl, (omega arith, (here, tt))))))
  | inr away ↦
      rw away (behind (first_header id (i + 1) cs) away (first_header-IsFirst id (i + 1) cs))
]
  where
    behind : (h : Option ℕ) → heads id c ≡ false → IsFirst id (i + 1) cs h → IsFirst id i (c ∷ cs) h
    behind none away rest = (away, rest)
    behind (some h) away (before, (x, (after, (split, (at, (here, others)))))) =
        (c ∷ before, (x, (after, (ap (λ l. c ∷ l) split, (omega arith, (here, (away, others)))))))

find_port-IsNamed :
    (name : Bytes) (ports : PortMap)
    → IsNamed ports
    → has_text name (names_of ports) ≡ true
    → ethernet_id name ≡ some (find_port name ports)
unfolding find_port has_text
find_port-IsNamed name [] named h = absurd (ground arith)
find_port-IsNamed name ((n, id) ∷ more) (here, named) h = elim (Bool-cases (bytes_eq n name)) [
  | inl same ↦ rw same (subst (λ x. ethernet_id x ≡ some id) ((bytes_eq_iff n name).0 same) here)
  | inr other ↦ rw other (find_port-IsNamed name more named (rw other at h))
]

-- No name stands in a list twice, nor in one before it.
abbrev pub AllNew : List Bytes → List Bytes → Type 0
AllNew before [] = Unit {0}
AllNew before (n ∷ names) = (has_text n before ≡ false) × AllNew (before ++ n ∷ []) names

names_of-append :
    (ports more : PortMap) → names_of (ports ++ more) ≡ names_of ports ++ names_of more
names_of-append [] more = refl
names_of-append (p ∷ ports) more = ap (λ l. p.0 ∷ l) (names_of-append ports more)

add_members_lem :
    (inventory : PortMap) (names : List Bytes) (actual result : PortMap)
    → IsNamed inventory
    → IsNamed actual
    → All (λ n. has_text n (names_of inventory) ≡ true) names
    → add_members inventory names actual ≡ ok result
    → (names_of result ≡ names_of actual ++ names)
      × (AllNew (names_of actual) names × IsNamed result)
unfolding add_members
add_members_lem inventory [] actual result named so_far known e =
    let same : actual ≡ result = ok-injective e in
    (ap names_of (sym same) ∙ sym (append-nil (names_of actual)), (tt, subst IsNamed same so_far))
add_members_lem inventory (name ∷ names) actual result named so_far (here, known) e =
    let (_, new, later) =
      >>=-eq-ok
        (reject_if (has_text name (names_of actual)) "native LAG member is assigned more than once")
        _ e in
    let one : PortMap = (name, find_port name inventory) ∷ [] in
    let (listed, (fresh, of_result)) =
      add_members_lem inventory names (actual ++ one) result named
        (All-append (λ p. ethernet_id p.0 ≡ some p.1) actual one so_far
          (find_port-IsNamed name inventory named here, tt))
        known later in
    let grown = names_of-append actual one in
    (
      listed ∙ ap (λ l. l ++ names) grown ∙ append_assoc (names_of actual) (name ∷ []) names,
      ((reject_if-eq-ok _ _ new, subst (λ l. AllNew l names) grown fresh), of_result),
    )

-- A valid list that names each of these members once, in order, among the ports of an inventory.
pub record IsListed (inventory : PortMap) (c : Command) (actual : PortMap) : Type 0 where
  pub valid : c.valid ≡ true
  pub resolved : resolve_ports c inventory ≡ ok (names_of actual)
  pub new : AllNew [] (names_of actual)
  pub named : IsNamed actual

-- The lists of a block give these members: there is no list and no member, or one list.
abbrev pub GivesMembers : PortMap → List Command → PortMap → Type 0
GivesMembers inventory [] actual = actual ≡ []
GivesMembers inventory (c ∷ []) actual = IsListed inventory c actual
GivesMembers inventory (c ∷ d ∷ cs) actual = ⊥

names-Ports :
    (P : Bytes → Type 0) (ports : PortMap) → All P (names_of ports) → All (λ p. P p.0) ports
names-Ports P [] h = tt
names-Ports P (p ∷ ports) (here, h) = (here, names-Ports P ports h)

actual_body-IsListed :
    (inventory : PortMap) (c : Command) (t : ActualState)
    → IsNamed inventory
    → All (λ n. has_text n (names_of inventory) ≡ true) (names_of inventory)
    → actual_body inventory c (record { seen = false; actual = [] }) ≡ ok t
    → (t.seen ≡ true) × IsListed inventory c t.actual
unfolding actual_body
actual_body-IsListed inventory c t named own e =
    let (_, good, e1) =
      >>=-eq-ok (reject_if (not c.valid) "native LAG members are malformed or repeated") _ e in
    let (names, resolved, e2) = >>=-eq-ok (resolve_ports c inventory) _ e1 in
    let (actual, added, e3) = >>=-eq-ok (add_members inventory names []) _ e2 in
    let known =
      resolve_ports-All (λ n. has_text n (names_of inventory) ≡ true) c inventory names
        (names-Ports (λ n. has_text n (names_of inventory) ≡ true) inventory own) resolved in
    let (listed, (new, of_actual)) =
      add_members_lem inventory names [] actual named tt known added in
    subst (λ t. (t.seen ≡ true) × IsListed inventory c t.actual) (ok-injective e3)
      (
        refl,
        record {
          valid = when_not c.valid (reject_if-eq-ok _ _ good);
          resolved = resolved ∙ ap ok (sym listed);
          new = subst (AllNew []) (sym listed) new;
          named = of_actual;
        },
      )
  where
    when_not : (b : Bool) → not b ≡ false → b ≡ true
    when_not b h = ground arith

actual_body_seen :
    (inventory : PortMap) (c : Command) (s t : ActualState)
    → s.seen ≡ true
    → actual_body inventory c s ≡ ok t
    → ⊥
unfolding actual_body
actual_body_seen inventory c s t seen e =
    let (_, good, _) =
      >>=-eq-ok (reject_if (s.seen || not c.valid) "native LAG members are malformed or repeated") _
        e in
    refused s.seen (not c.valid) seen (reject_if-eq-ok _ _ good)
  where
    refused : (b x : Bool) → b ≡ true → (b || x) ≡ false → ⊥
    refused b x h k = ground arith

pub body_all-GivesMembers :
    (inventory : PortMap) (cs : List Command) (t : ActualState)
    → IsNamed inventory
    → All (λ n. has_text n (names_of inventory) ≡ true) (names_of inventory)
    → body_all (actual_body inventory) cs (record { seen = false; actual = [] }) ≡ ok t
    → GivesMembers inventory cs t.actual
unfolding body_all
body_all-GivesMembers inventory [] t named own e = ap (λ t. t.actual) (sym (ok-injective e))
body_all-GivesMembers inventory (c ∷ []) t named own e =
    let (u, stepped, later) = >>=-eq-ok (actual_body inventory c _) ok e in
    subst (λ t. IsListed inventory c t.actual) (ok-injective later)
      (actual_body-IsListed inventory c u named own stepped).1
body_all-GivesMembers inventory (c ∷ d ∷ cs) t named own e =
    let (u, stepped, later) =
      >>=-eq-ok (actual_body inventory c _) (λ u. body_all (actual_body inventory) (d ∷ cs) u) e in
    let (v, again, _) =
      >>=-eq-ok (actual_body inventory d u) (λ v. body_all (actual_body inventory) cs v) later in
    absurd (
      actual_body_seen inventory d u v (actual_body-IsListed inventory c u named own stepped).0
        again)
