-- ===== src/Config/PortId/Canonical.antt =====
-- parseEthernetPort accepts the canonical texts of port identities and no others.
use fastiron_tofu.Config.PortId.Numerals.{
  at_1, at_2, at_3, at_4, at_5, at_6, at_7, from_parts, slashed, start_state, numerals_read,
}
use fastiron_tofu.Prelude.{
  ℕ, suc, ◌≤◌, ◌<◌, ◌≡◌, refl, sym, ◌∙◌, ap, Bool, true, false, ◌&&◌, [], ◌∷◌, ◌++◌, append_assoc,
  Bytes, length, leb, ltb, arith, Bool-cases, inl, inr, some,
}
use fastiron_tofu.Config.Command.{PortId}
use fastiron_tofu.Config.Numbers.{clamp, parse_uint64, parse_below, decimal_onto, u64_limit}
use fastiron_tofu.Config.Numbers.Decimal.{
  is_numeral, is_numeral-value, format_uint, decimal_onto-format_uint, format_uint-is_numeral,
}
use fastiron_tofu.Config.PortId.{PortState, parse_ethernet_port}
use fastiron_tofu.Config.PortId.Component.{component_split, not_both, from, IsAccepted, ended}

-- A port identity as the device writes it.
unfoldable pub port_text : PortId → Bytes
port_text id = slashed (format_uint id.stack) (format_uint id.slot) (format_uint id.port)

-- Its three numbers are positive and fit 64 bits.
abbrev pub Component : ℕ → Type 0
Component n = (1 ≤ n) × (n < u64_limit)

abbrev pub InRange : PortId → Type 0
InRange id = Component id.stack × (Component id.slot × Component id.port)

print-is_numeral : (n : ℕ) → Component n → is_numeral (format_uint n) ≡ true
unfolding format_uint
print-is_numeral n (pos, _) = format_uint-is_numeral (suc n) n pos (omega arith)

parse_below-fits :
    (limit : ℕ) (a : Bytes) (n : ℕ)
    → is_numeral a ≡ true
    → decimal_onto 0 a ≡ some n
    → n < limit
    → parse_below limit a ≡ (n, true)
unfolding parse_below
parse_below-fits limit [] n h e small = ground arith
parse_below-fits limit (c ∷ cs) n h e small =
    let below : ltb n limit ≡ true = ground arith in ap (clamp limit) e ∙ rw below refl

print_parsed : (n : ℕ) → Component n → parse_uint64 (format_uint n) ≡ (n, true)
unfolding parse_uint64
print_parsed n range =
    parse_below-fits u64_limit (format_uint n) n (print-is_numeral n range)
      (decimal_onto-format_uint n) range.1

-- A numeral that is accepted is the print of its value, which is in range.
accepted-Component :
    (a : Bytes) (n : ℕ)
    → is_numeral a ≡ true
    → parse_uint64 a ≡ (n, true)
    → Component n × (format_uint n ≡ a)
unfolding parse_uint64 parse_below
accepted-Component [] n h e = ground arith
accepted-Component (c ∷ cs) n h e =
    let (m, (value, (pos, print))) = is_numeral-value (c ∷ cs) h in
    let read : clamp u64_limit (some m) ≡ (n, true) = sym (ap (clamp u64_limit) value) ∙ e in
    elim (Bool-cases (ltb m u64_limit)) [
      | inl small ↦
          let same : m ≡ n = ap (λ r. r.0) (rw small at read) in
          let below : m < u64_limit = ground arith in
          ((rw (sym same) pos, rw (sym same) below), rw (sym same) print)
      | inr large ↦ absurd (not_both (ap (λ r. r.1) (rw large at read)) refl)
    ]

and_true : (b : Bool) → b && true ≡ b
and_true true = refl
and_true false = refl

closed : (a b c : Bytes) → slashed a b c ++ b'\n' ∷ [] ≡ a ++ b'/' ∷ (b ++ b'/' ∷ (c ++ b'\n' ∷ []))
closed a b c =
    append_assoc a (b'/' ∷ (b ++ b'/' ∷ c)) (b'\n' ∷ [])
    ∙ ap (λ x. a ++ b'/' ∷ x) (append_assoc b (b'/' ∷ c) (b'\n' ∷ []))

-- What is read once the text has three numerals.
parts_parsed :
    (a b c : Bytes)
    → is_numeral a ≡ true
    → is_numeral b ≡ true
    → is_numeral c ≡ true
    → parse_ethernet_port (slashed a b c)
      ≡ from_parts (parse_uint64 a) (parse_uint64 b) (parse_uint64 c)
unfolding parse_ethernet_port
parts_parsed a b c of_a of_b of_c =
    let text = slashed a b c ++ b'\n' ∷ [] in
    let (p, (s, (at, value))) = numerals_read text a b c [] (closed a b c) of_a of_b of_c in
    let final = at ∙ ended text p 7 s in
    ap (λ r. (r.1.id, r.1.valid && leb 7 r.0)) final
    ∙ (ap (λ v. (s.id, v)) (and_true s.valid) ∙ value)

-- The text that stack, slot and port make in decimal with slashes between them parses back to the
-- identity, for all three numbers from 1 and below 2^64.
pub parse_ethernet_port-port_text :
    (id : PortId) → InRange id → parse_ethernet_port (port_text id) ≡ (id, true)
unfolding port_text
parse_ethernet_port-port_text id (of_stack, (of_slot, of_port)) =
    parts_parsed (format_uint id.stack) (format_uint id.slot) (format_uint id.port)
      (print-is_numeral id.stack of_stack) (print-is_numeral id.slot of_slot)
      (print-is_numeral id.port of_port)
    ∙ rw
        (print_parsed id.stack of_stack, print_parsed id.slot of_slot, print_parsed id.port of_port)
        refl

uncons : {x y : ℕ} {xs ys : Bytes} → x ∷ xs ≡ y ∷ ys → (x ≡ y) × (xs ≡ ys)
uncons e = (cc, cc)

snoc-injective : (xs ys : Bytes) (x : ℕ) → xs ++ x ∷ [] ≡ ys ++ x ∷ [] → xs ≡ ys
snoc-injective [] [] x e = refl
snoc-injective [] (y ∷ []) x e = ground arith
snoc-injective [] (y ∷ z ∷ ys) x e = ground arith
snoc-injective (z ∷ []) [] x e = ground arith
snoc-injective (z ∷ w ∷ xs) [] x e = ground arith
snoc-injective (z ∷ xs) (y ∷ ys) x e =
    let (head, tail) = uncons e in
    ap (λ h. h ∷ xs) head ∙ ap (λ t. y ∷ t) (snoc-injective xs ys x tail)

accepted_end :
    (full rest : Bytes) (p : ℕ) (s : PortState) → IsAccepted full (from full p 7 rest s) → rest ≡ []
accepted_end full [] p s h = refl
accepted_end full (c ∷ rest) p s h = absurd (not_both (rw (at_7 full c rest p s) at h) refl)

all_valid : (x y z : Bool) → (x && y && z) ≡ true → (x ≡ true) × ((y ≡ true) × (z ≡ true))
all_valid x y z h = ground arith

pair_of : {r : ℕ × Bool} {n : ℕ} → r.0 ≡ n → r.1 ≡ true → r ≡ (n, true)
pair_of e v = λ i. (e i, v i)

-- A text that is accepted has three numerals.
accepted_parts :
    (text : Bytes)
    → (parse_ethernet_port text).1 ≡ true
    → (a : Bytes) × ((b : Bytes) × ((c : Bytes) × ((is_numeral a ≡ true)
            × ((is_numeral b ≡ true) × ((is_numeral c ≡ true) × (text ≡ slashed a b c))))))
unfolding parse_ethernet_port
accepted_parts text ok =
    let full = text ++ b'\n' ∷ [] in
    let done : IsAccepted full (from full 0 1 full start_state) = ground arith in
    let (a, (after_a, (of_a, (e1, (to_a, (s1, (f1, on_a))))))) =
      component_split full 1 2 3 b'/' refl (at_1 full) (at_2 full) refl refl full [] start_state
        refl done in
    let (b, (after_b, (of_b, (e2, (to_b, (s2, (f2, on_b))))))) =
      component_split full 3 4 5 b'/' refl (at_3 full) (at_4 full) refl refl after_a to_a s1 f1
        on_a in
    let (c, (after_c, (of_c, (e3, (to_c, (s3, (f3, on_c))))))) =
      component_split full 5 6 7 b'\n' refl (at_5 full) (at_6 full) refl refl after_b to_b s2 f2
        on_b in
    let last = accepted_end full after_c (length to_c) s3 on_c in
    let whole =
      e1
      ∙ (ap (λ x. a ++ b'/' ∷ x) e2
          ∙ (ap (λ x. a ++ b'/' ∷ (b ++ b'/' ∷ x)) e3
              ∙ ap (λ x. a ++ b'/' ∷ (b ++ b'/' ∷ (c ++ b'\n' ∷ x))) last)) in
    (
      a,
      (
        b,
        (
          c,
          (
            of_a,
            (of_b, (of_c, snoc-injective text (slashed a b c) b'\n' (whole ∙ sym (closed a b c)))),
          ),
        ),
      ),
    )

-- A text that parseEthernetPort accepts has three numbers from 1 and below 2^64, and is the
-- decimal text of the identity that it parses to: no leading zero, no other spelling.
pub parse_ethernet_port-injective :
    (text : Bytes) (id : PortId)
    → parse_ethernet_port text ≡ (id, true)
    → InRange id × (text ≡ port_text id)
unfolding port_text
parse_ethernet_port-injective text id e =
    let (a, (b, (c, (of_a, (of_b, (of_c, split)))))) = accepted_parts text (ap (λ r. r.1) e) in
    let parts =
      sym (parts_parsed a b c of_a of_b of_c) ∙ (sym (ap parse_ethernet_port split) ∙ e) in
    let ids = ap (λ r. r.0) parts in
    let (va, (vb, vc)) = all_valid _ _ _ (ap (λ r. r.1) parts) in
    let (ra, pa) = accepted-Component a id.stack of_a (pair_of (ap (λ i. i.stack) ids) va) in
    let (rb, pb) = accepted-Component b id.slot of_b (pair_of (ap (λ i. i.slot) ids) vb) in
    let (rc, pc) = accepted-Component c id.port of_c (pair_of (ap (λ i. i.port) ids) vc) in
    (
      (ra, (rb, rc)),
      split
          ∙ sym (
              ap (λ x. slashed x (format_uint id.slot) (format_uint id.port)) pa
              ∙ (ap (λ x. slashed a x (format_uint id.port)) pb ∙ ap (λ x. slashed a b x) pc)),
    )
