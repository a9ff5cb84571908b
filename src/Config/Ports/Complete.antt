-- ===== src/Config/Ports/Complete.antt =====
-- A range that resolves is complete: every port in it is in the inventory, under a resolved name.
use fastiron_tofu.Prelude.{
  ℕ, ◌+◌, ◌-◌, ◌%◌, ◌≤◌, ◌<◌, ◌≡◌, ◌≢◌, refl, sym, subst, ◌∙◌, true, false, not, ◌||◌, List, [],
  ◌∷◌, ◌++◌, map, All, Bytes, length, keep, ◌==◌, arith, Bool-cases, inl, inr, ok, >>=-eq-ok,
  ok-injective, bytes_eq_refl, reject_if, reject_if-eq-ok, has_text, ◌||◌,
}
use fastiron_tofu.Config.Command.{PortId, PortRange, Command}
use fastiron_tofu.Config.Numbers.{u64_limit}
use fastiron_tofu.Config.Ports.{
  PortMap, names_of, in_range, is_bad_range, range_size, resolve_ranges, resolve_ports,
}
use fastiron_tofu.Config.Ports.Hits.{has_number, Distinct, has_number_of_full}

-- No two entries of the inventory are one port.
abbrev pub IsOther : PortId → Bytes × PortId → Type 0
IsOther p q = p ≢ q.1

abbrev pub HasDistinctIds : PortMap → Type 0
HasDistinctIds [] = Unit
HasDistinctIds (p ∷ ports) = All (IsOther p.1) ports × HasDistinctIds ports

-- The port numbers of the entries in the range.
abbrev numbers : PortRange → PortMap → List ℕ
numbers span ports = map (λ p. p.1.port) (keep (in_range span) ports)

-- An entry of the inventory for this port, under a name of the list.
abbrev pub Named : PortId → PortMap → List Bytes → Type 0
Named id ports names =
    (p : Bytes × PortId) × (p.1 ≡ id)
    × (has_text p.0 names ≡ true)
    × (has_text p.0 (names_of ports) ≡ true)

in_range-parts :
    (span : PortRange) (p : Bytes × PortId)
    → in_range span p ≡ true
    → (p.1.stack ≡ span.first.stack)
      × (p.1.slot ≡ span.first.slot)
      × (span.first.port ≤ p.1.port)
      × (p.1.port ≤ span.last.port)
unfolding in_range
in_range-parts span p h = ground arith

numbers-within :
    (span : PortRange) (ports : PortMap)
    → span.first.port ≤ span.last.port
    → All
        (λ x.
          (span.first.port ≤ x) × (x < span.first.port + (span.last.port - span.first.port + 1)))
        (numbers span ports)
numbers-within span [] h = tt
numbers-within span (p ∷ ports) h = elim (Bool-cases (in_range span p)) [
  | inl inside ↦
      rw inside (ground (arith, in_range-parts span p inside), numbers-within span ports h)
  | inr outside ↦ rw outside (numbers-within span ports h)
]

port_eq : (p q : PortId) → p.stack ≡ q.stack → p.slot ≡ q.slot → p.port ≡ q.port → p ≡ q
port_eq p q e f g = λ i. record { stack = e i; slot = f i; port = g i }

other_port :
    (span : PortRange) (p q : Bytes × PortId)
    → in_range span p ≡ true
    → in_range span q ≡ true
    → p.1 ≢ q.1
    → q.1.port ≢ p.1.port
other_port span p q inside also other e =
    let (a, b, _, _) = in_range-parts span p inside in
    let (a', b', _, _) = in_range-parts span q also in
    other (port_eq p.1 q.1 (a ∙ sym a') (b ∙ sym b') (sym e))

new_number :
    (span : PortRange) (p : Bytes × PortId) (ports : PortMap)
    → in_range span p ≡ true
    → All (IsOther p.1) ports
    → has_number p.1.port (numbers span ports) ≡ false
new_number span p [] inside h = refl
new_number span p (q ∷ ports) inside (other, h) = elim (Bool-cases (in_range span q)) [
  | inl also ↦
      let differs : q.1.port ≢ p.1.port = other_port span p q inside also other in
      rw also (ground (arith, new_number span p ports inside h))
  | inr outside ↦ rw outside (new_number span p ports inside h)
]

numbers-Distinct :
    (span : PortRange) (ports : PortMap) → HasDistinctIds ports → Distinct (numbers span ports)
numbers-Distinct span [] h = tt
numbers-Distinct span (p ∷ ports) (other, h) = elim (Bool-cases (in_range span p)) [
  | inl inside ↦ rw inside (new_number span p ports inside other, numbers-Distinct span ports h)
  | inr outside ↦ rw outside (numbers-Distinct span ports h)
]

length-numbers :
    (span : PortRange) (ports : PortMap)
    → length (numbers span ports) ≡ length (names_of (keep (in_range span) ports))
length-numbers span [] = refl
length-numbers span (p ∷ ports) = ground (arith, length-numbers span ports)

-- The entry behind a number that was found.
Named-of_number :
    (span : PortRange) (ports : PortMap) (n : ℕ)
    → has_number n (numbers span ports) ≡ true
    → Named
        (record { stack = span.first.stack; slot = span.first.slot; port = n })
        ports
        (names_of (keep (in_range span) ports))
unfolding has_text
Named-of_number span [] n h = absurd (ground arith)
Named-of_number span (p ∷ ports) n h = elim (Bool-cases (in_range span p)) [
  | inr outside ↦
      let (q, e, found, known) = Named-of_number span ports n (rw outside at h) in
      (q, e, rw outside found, ground arith)
  | inl inside ↦ elim (Bool-cases (p.1.port == n)) [
    | inl same ↦
        let (a, b, _, _) = in_range-parts span p inside in
        (
          p,
          port_eq p.1 _ a b (ground arith),
          rw inside (ground (arith, bytes_eq_refl p.0)),
          ground (arith, bytes_eq_refl p.0),
        )
    | inr other ↦
        let (q, e, found, known) = Named-of_number span ports n (ground arith) in
        (q, e, rw inside (ground arith), ground arith)
  ]
]

-- A range resolves to entries for all of its ports.
range_complete :
    (span : PortRange) (ports : PortMap) (n : ℕ)
    → HasDistinctIds ports
    → is_bad_range span ≡ false
    → 1 ≤ span.first.port
    → span.last.port < u64_limit
    → length (names_of (keep (in_range span) ports)) == range_size span ≡ true
    → span.first.port ≤ n
    → n ≤ span.last.port
    → Named
        (record { stack = span.first.stack; slot = span.first.slot; port = n })
        ports
        (names_of (keep (in_range span) ports))
range_complete span ports n distinct good ge lt full lo hi =
    let ordered : span.first.port ≤ span.last.port = ground arith in
    let sized : length (names_of (keep (in_range span) ports))
        ≡ (span.last.port - span.first.port + 1) % u64_limit =
      ground arith in
    Named-of_number span ports n (
      has_number_of_full span.first.port (span.last.port - span.first.port + 1) n
        (numbers span ports) (numbers-Distinct span ports distinct)
        (numbers-within span ports ordered) (omega (arith, length-numbers span ports)) lo
        (omega arith))

has_text-append :
    (x : Bytes) (xs ys : List Bytes) → has_text x (xs ++ ys) ≡ (has_text x xs || has_text x ys)
unfolding has_text
has_text-append x [] ys = refl
has_text-append x (z ∷ xs) ys = ground (arith, has_text-append x xs ys)

-- Each port of each range is named in the result, by an entry of the inventory.
abbrev pub IsComplete : PortMap → List Bytes → PortRange → Type 0
IsComplete ports names span =
    (n : ℕ)
    → span.first.port ≤ n
    → n ≤ span.last.port
    → Named (record { stack = span.first.stack; slot = span.first.slot; port = n }) ports names

-- The values that the parser gives to the ends of a range.
abbrev pub IsParsedRange : PortRange → Type 0
IsParsedRange span = (1 ≤ span.first.port) × (span.last.port < u64_limit)

Named-mono :
    (id : PortId) (ports : PortMap) (xs ys : List Bytes)
    → ((x : Bytes) → has_text x xs ≡ true → has_text x ys ≡ true)
    → Named id ports xs
    → Named id ports ys
Named-mono id ports xs ys more (p, e, found, known) = (p, e, more p.0 found, known)

resolve_ranges_mono :
    (spans : List PortRange) (ports : PortMap) (before names : List Bytes)
    → resolve_ranges spans ports before ≡ ok names
    → (x : Bytes) → has_text x before ≡ true
    → has_text x names ≡ true
unfolding resolve_ranges
resolve_ranges_mono [] ports before names h x found =
    subst (λ l. has_text x l ≡ true) (ok-injective h) found
resolve_ranges_mono (span ∷ more) ports before names h x found =
    let (_, _, h1) = >>=-eq-ok (reject_if (is_bad_range span) _) _ h in
    let (_, _, h2) =
      >>=-eq-ok
        (reject_if (not (length (names_of (keep (in_range span) ports)) == range_size span)) _) _
        h1 in
    resolve_ranges_mono more ports _ names h2 x
      (ground (arith, has_text-append x before (names_of (keep (in_range span) ports))))

resolve_ranges-IsComplete :
    (spans : List PortRange) (ports : PortMap) (before names : List Bytes)
    → HasDistinctIds ports
    → All IsParsedRange spans
    → resolve_ranges spans ports before ≡ ok names
    → All (IsComplete ports names) spans
unfolding resolve_ranges
resolve_ranges-IsComplete [] ports before names distinct parsed h = tt
resolve_ranges-IsComplete (span ∷ more) ports before names distinct ((ge, lt), parsed) h =
    let found = names_of (keep (in_range span) ports) in
    let (_, good, h1) = >>=-eq-ok (reject_if (is_bad_range span) _) _ h in
    let (_, full, h2) = >>=-eq-ok (reject_if (not (length found == range_size span)) _) _ h1 in
    (
      (λ n lo hi.
          Named-mono _ ports found names
            (λ x here.
              resolve_ranges_mono more ports (before ++ found) names h2 x
                (ground (arith, has_text-append x before found)))
            (range_complete span ports n distinct (reject_if-eq-ok _ _ good) ge lt
              (ground (arith, reject_if-eq-ok _ _ full)) lo hi)),
      resolve_ranges-IsComplete more ports (before ++ found) names distinct parsed h2,
    )

-- Where the inventory has no port twice and the ends of the ranges are between 1 and 64-bit
-- bounds, ranges that resolve are complete: every port number of every range belongs to an
-- inventory entry of that stack and slot whose name is in the result.
pub resolve_ports-IsComplete :
    (c : Command) (ports : PortMap) (names : List Bytes)
    → HasDistinctIds ports
    → All IsParsedRange c.port_ranges
    → c.all_ports ≡ false
    → resolve_ports c ports ≡ ok names
    → All (IsComplete ports names) c.port_ranges
unfolding resolve_ports
resolve_ports-IsComplete c ports names distinct parsed explicit h =
    resolve_ranges-IsComplete c.port_ranges ports [] names distinct parsed (rw explicit at h)
