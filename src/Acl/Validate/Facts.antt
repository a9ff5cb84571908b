-- ===== src/Acl/Validate/Facts.antt =====
-- What the checks of validateIP say of the values that pass them.
use fastiron_tofu.Prelude.{
  ℕ, ◌≤◌, ◌≡◌, refl, ap, ℤ, pos, negsuc, is_below, is_above, equals, same_int, less_int, Bool, true,
  false, not, ◌&&◌, ◌||◌, codes, ==_iff, ◌==◌, arith, ◌⊎◌, inl, inr,
}
use fastiron_tofu.Acl.{IpFamily, ipv6_acl, OptionalInt, PortMatch, IpRule}

-- A natural number between two bounds.
abbrev pub IsBetween : ℕ → ℕ → ℤ → Type 0
IsBetween low high v = (n : ℕ) × ((v ≡ pos n) × ((low ≤ n) × (n ≤ high)))

abbrev pub FitsWithin : ℕ → OptionalInt → Type 0
FitsWithin most field = field.present ≡ true → IsBetween 0 most field.value

-- An ordered range of ports, on a rule for TCP or UDP.
abbrev pub IsPortRange : IpRule → PortMatch → Type 0
IsPortRange r port =
    port.present ≡ true
    → (a : ℕ) × ((b : ℕ) × ((port.first ≡ pos a)
          × ((port.last ≡ pos b)
              × ((a ≤ b)
                  × ((b ≤ 65535)
                      × ((r.protocol.present ≡ true)
                          × ((r.protocol.value ≡ pos 6) ⊎ (r.protocol.value ≡ pos 17))))))))

abbrev pub IsRule : IpFamily → ℤ × IpRule → Type 0
IsRule family (sequence, r) =
    IsBetween 1 65000 sequence
    × ((r.sequence ≡ sequence)
        × (((r.action ≡ codes "permit") ⊎ (r.action ≡ codes "deny"))
            × ((r.log ≡ true → family ≡ ipv6_acl)
                × (FitsWithin 254 r.protocol
                    × (IsPortRange r r.source_port
                        × (IsPortRange r r.destination_port
                            × (FitsWithin 63 r.dscp
                                × (FitsWithin 63 r.dscp_mark × FitsWithin 7 r.priority))))))))

pub ==-true : (a b : ℕ) → (a == b) ≡ true → a ≡ b
==-true a b h = (==_iff a b).0 h

pub between :
    (low high : ℕ) (v : ℤ) → (is_below v low || is_above v high) ≡ false → IsBetween low high v
between low high (pos n) h = (n, (refl, (ground arith, ground arith)))
between low high (negsuc n) h = ground arith

pub same_int-eq : (a b : ℤ) → same_int a b ≡ true → b ≡ a
same_int-eq (pos m) (pos n) h = ap pos (ground arith)
same_int-eq (negsuc m) (negsuc n) h = ap negsuc (ground arith)
same_int-eq (pos m) (negsuc n) h = ground arith
same_int-eq (negsuc m) (pos n) h = ground arith

pub equals-eq : (v : ℤ) (n : ℕ) → equals v n ≡ true → v ≡ pos n
equals-eq (pos m) n h = ap pos (ground arith)
equals-eq (negsuc m) n h = ground arith

pub exceeds-FitsWithin :
    (field : OptionalInt) (most : ℕ)
    → (field.present && (is_below field.value 0 || is_above field.value most)) ≡ false
    → FitsWithin most field
exceeds-FitsWithin field most h there = between 0 most field.value (rw there at h)

pub ordered :
    (a b : ℤ)
    → (is_below a 0 || is_above b 65535 || less_int b a) ≡ false
    → (m : ℕ) × ((n : ℕ) × ((a ≡ pos m) × ((b ≡ pos n) × ((m ≤ n) × (n ≤ 65535)))))
ordered (pos m) (pos n) h = (m, (n, (refl, (refl, (ground arith, ground arith)))))
ordered (pos m) (negsuc n) h = ground arith
ordered (negsuc m) b h = ground arith

pub one_of :
    (p x y : Bool) → (not p || not x && not y) ≡ false → (p ≡ true) × ((x ≡ true) ⊎ (y ≡ true))
one_of true true y h = (refl, inl refl)
one_of true false true h = (refl, inr refl)
one_of true false false h = ground arith
one_of false x y h = ground arith

pub IsPortRange_lem :
    (r : IpRule) (port : PortMatch)
    → (port.present
        && (not r.protocol.present
            || not (equals r.protocol.value 6) && not (equals r.protocol.value 17)))
      ≡ false
    → (port.present
        && (is_below port.first 0 || is_above port.last 65535 || less_int port.last port.first))
      ≡ false
    → IsPortRange r port
IsPortRange_lem r port transport range there =
    let (a, (b, (first, (last, (up, high))))) = ordered port.first port.last (rw there at range) in
    let (known, which) =
      one_of r.protocol.present (equals r.protocol.value 6) (equals r.protocol.value 17)
        (rw there at transport) in
    (
      a,
      (
        b,
        (
          first,
          (
            last,
            (
              up,
              (
                high,
                (
                  known,
                  elim which [
                    | inl tcp ↦ inl (equals-eq r.protocol.value 6 tcp)
                    | inr udp ↦ inr (equals-eq r.protocol.value 17 udp)
                  ],
                ),
              ),
            ),
          ),
        ),
      ),
    )

pub either_action : (x y : Bool) → (not x && not y) ≡ false → (x ≡ true) ⊎ (y ≡ true)
either_action true y h = inl refl
either_action false true h = inr refl
either_action false false h = ground arith

pub first_of : (x y : Bool) → (x || y) ≡ false → x ≡ false
first_of x y h = ground arith

pub log_family : (l six : Bool) → (l && not six) ≡ false → l ≡ true → six ≡ true
log_family l six h on = ground arith

pub when_not : (b : Bool) → not b ≡ false → b ≡ true
when_not b h = ground arith

pub last_of : (x y : Bool) → (x || y) ≡ false → y ≡ false
last_of x y h = ground arith
