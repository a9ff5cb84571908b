-- ===== src/Config/PortId/Numerals.antt =====
-- The states of the machine `ethernet_port`, and its run over three numerals.
use fastiron_tofu.Prelude.{
  ℕ, ◌+◌, ◌≡◌, refl, sym, ◌∙◌, ap, Bool, true, ◌&&◌, [], ◌∷◌, ◌++◌, append_assoc, Bytes, length,
  length-append, arith,
}
use fastiron_tofu.Ragel.{run}
use fastiron_tofu.Config.Command.{PortId}
use fastiron_tofu.Config.Numbers.{parse_uint64}
use fastiron_tofu.Config.Numbers.Decimal.{is_numeral}
use fastiron_tofu.Config.PortId.{PortState, port_action, component_done, no_port}
use fastiron_tofu.Config.PortId.Component.{from, AtFirst, Inside, component_read}

module _ (text : Bytes) where
  pub at_1 : AtFirst text 1 2
  unfolding run port_action
  at_1 c rest p s = ground arith

  pub at_2 : Inside text 2 3 b'/'
  unfolding run port_action
  at_2 c rest p s = ground arith

  pub at_3 : AtFirst text 3 4
  unfolding run port_action
  at_3 c rest p s = ground arith

  pub at_4 : Inside text 4 5 b'/'
  unfolding run port_action
  at_4 c rest p s = ground arith

  pub at_5 : AtFirst text 5 6
  unfolding run port_action
  at_5 c rest p s = ground arith

  pub at_6 : Inside text 6 7 b'\n'
  unfolding run port_action
  at_6 c rest p s = ground arith

  pub at_7 : (c : ℕ) (rest : Bytes) (p : ℕ) (s : PortState) → from text p 7 (c ∷ rest) s ≡ (0, s)
  unfolding run port_action
  at_7 c rest p s = ground arith

-- What three parsed components make.
abbrev pub from_parts : ℕ × Bool → ℕ × Bool → ℕ × Bool → PortId × Bool
from_parts a b c = (record { stack = a.0; slot = b.0; port = c.0 }, a.1 && b.1 && c.1)

abbrev pub slashed : Bytes → Bytes → Bytes → Bytes
slashed a b c = a ++ b'/' ∷ (b ++ b'/' ∷ c)

abbrev pub start_state : PortState
start_state = record { start = 0; index = 0; id = no_port; valid = true }

regroup :
    (a b t : Bytes) → a ++ b'/' ∷ (b ++ b'/' ∷ t) ≡ ((a ++ b'/' ∷ []) ++ (b ++ b'/' ∷ [])) ++ t
regroup a b t =
    sym (append_assoc a (b'/' ∷ []) (b ++ b'/' ∷ t))
    ∙ (ap (λ x. (a ++ b'/' ∷ []) ++ x) (sym (append_assoc b (b'/' ∷ []) t))
        ∙ sym (append_assoc (a ++ b'/' ∷ []) (b ++ b'/' ∷ []) t))

-- Where the text with its line feed has these numerals, the machine reads them.
pub numerals_read :
    (text a b c rest : Bytes)
    → text ≡ a ++ b'/' ∷ (b ++ b'/' ∷ (c ++ b'\n' ∷ rest))
    → is_numeral a ≡ true
    → is_numeral b ≡ true
    → is_numeral c ≡ true
    → (p : ℕ) × ((s : PortState) × ((from text 0 1 text start_state ≡ from text p 7 rest s)
          × ((s.id, s.valid) ≡ from_parts (parse_uint64 a) (parse_uint64 b) (parse_uint64 c))))
numerals_read text a b c rest e of_a of_b of_c =
    let s1 = component_done (parse_uint64 a) (record start_state { start = 0 }) in
    let p1 = 0 + length a + 1 in
    let s2 = component_done (parse_uint64 b) (record s1 { start = p1 }) in
    let p2 = p1 + length b + 1 in
    let s3 = component_done (parse_uint64 c) (record s2 { start = p2 }) in
    let first =
      component_read text 1 2 3 b'/' refl (at_1 text) (at_2 text) refl refl a
        (b ++ b'/' ∷ (c ++ b'\n' ∷ rest)) [] start_state 0 of_a e refl in
    let second =
      component_read text 3 4 5 b'/' refl (at_3 text) (at_4 text) refl refl b (c ++ b'\n' ∷ rest)
        (a ++ b'/' ∷ []) s1 p1 of_b
        (e ∙ sym (append_assoc a (b'/' ∷ []) (b ++ b'/' ∷ (c ++ b'\n' ∷ rest))))
        (omega (arith, length-append a (b'/' ∷ []))) in
    let third =
      component_read text 5 6 7 b'\n' refl (at_5 text) (at_6 text) refl refl c rest
        ((a ++ b'/' ∷ []) ++ (b ++ b'/' ∷ [])) s2 p2 of_c (e ∙ regroup a b (c ++ b'\n' ∷ rest))
        (omega (
          arith,
          length-append a (b'/' ∷ []),
          length-append b (b'/' ∷ []),
          length-append (a ++ b'/' ∷ []) (b ++ b'/' ∷ []),
        )) in
    (
      p2 + length c + 1,
      (s3, (ap (λ t. from text 0 1 t start_state) e ∙ (first ∙ (second ∙ third)), refl)),
    )
