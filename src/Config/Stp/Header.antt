-- ===== src/Config/Stp/Header.antt =====
-- The header of the VLAN that STPVLAN selects.
use fastiron_tofu.Prelude.{
  ℕ, ◌+◌, ◌≡◌, refl, sym, ap, true, false, not, ◌&&◌, ◌||◌, List, [], ◌∷◌, Option, none, some,
  Result, ok, loop, places, ok-injective, ◌>>◌, ◌>>=◌, reject_if, is_none, Bool-cases, inl, inr,
  arith, ◌==◌, Bool, if◌then◌else◌,
}
use fastiron_tofu.Config.Command.{Command, is_top, vlan_header}
use fastiron_tofu.Config.Stp.{vlan_header_step}

-- A top-level header of this VLAN.
abbrev pub is_vlan : ℕ → Command → Bool
is_vlan id c = is_top c && c.kind == vlan_header && c.number == id

abbrev pub listed : Option ℕ → List ℕ
listed none = []
listed (some i) = i ∷ []

vlan_header_step-is_vlan :
    (id i : ℕ) (c : Command) (header : Option ℕ)
    → vlan_header_step id i c header ≡ (
        if is_vlan id c
        then (reject_if
              (not c.valid || not (is_none header))
              "native configuration has an invalid or repeated VLAN header"
            >> ok (some i))
        else ok header)
unfolding vlan_header_step
vlan_header_step-is_vlan id i c header = ground arith

module _ (i : ℕ) (k : Option ℕ → Result (Option ℕ)) where
  abbrev met : Bool → Result (Option ℕ)
  met failed =
      reject_if failed "native configuration has an invalid or repeated VLAN header" >> ok (some i)

  second_refused :
      (valid : Bool) {header : Option ℕ}
      → (met (not valid || true) >>= k) ≡ ok header
      → false ≡ true
  second_refused true e = cc
  second_refused false e = cc

  first_taken :
      (valid : Bool) {header : Option ℕ}
      → (met (not valid || false) >>= k) ≡ ok header
      → k (some i) ≡ ok header
  first_taken true e = e
  first_taken false e = cc

vlan_header_after :
    (id i j : ℕ) (cs : List Command) {header : Option ℕ}
    → loop (vlan_header_step id) i cs (some j) ≡ ok header
    → (header ≡ some j) × (places (is_vlan id) i cs ≡ [])
unfolding loop
vlan_header_after id i j [] e = (sym (ok-injective e), refl)
vlan_header_after id i j (c ∷ cs) e = elim (Bool-cases (is_vlan id c)) [
  | inl here ↦ absurd (
      ground (
        arith,
        second_refused i (loop (vlan_header_step id) (i + 1) cs) c.valid
            (rw (vlan_header_step-is_vlan id i c (some j), here) at e),
      ))
  | inr other ↦ rw other (
      vlan_header_after id (i + 1) j cs (rw (vlan_header_step-is_vlan id i c (some j), other) at e))
]

pub vlan_header-listed :
    (id i : ℕ) (cs : List Command) {header : Option ℕ}
    → loop (vlan_header_step id) i cs none ≡ ok header
    → places (is_vlan id) i cs ≡ listed header
unfolding loop
vlan_header-listed id i [] e = ap listed (ok-injective e)
vlan_header-listed id i (c ∷ cs) e = elim (Bool-cases (is_vlan id c)) [
  | inl here ↦
      let taken =
        first_taken i (loop (vlan_header_step id) (i + 1) cs) c.valid
          (rw (vlan_header_step-is_vlan id i c none, here) at e) in
      let (same, no_more) = vlan_header_after id (i + 1) i cs taken in rw (here, no_more, same) refl
  | inr other ↦
      rw other
        (vlan_header-listed id (i + 1) cs (rw (vlan_header_step-is_vlan id i c none, other) at e))
]
