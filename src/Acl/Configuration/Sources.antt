-- ===== src/Acl/Configuration/Sources.antt =====
-- Where the rules that nativeIP reads come from.
use fastiron_tofu.Prelude.{
  ℕ, ◌≡◌, refl, sym, ◌∙◌, ap, subst, ℤ, same_int, false, not, ◌&&◌, List, [], ◌∷◌, ◌++◌, Option,
  none, some, Bytes, codes, ok, ok-injective, ok-ne-err, >>=-eq-ok, reject_if, reject_if-eq-ok, All,
  All-append, arith, inl, inr, if◌then◌else◌, bytes_eq, ◌==◌, loop, loop_inv, Bool-cases,
  Result-cases, is_none,
}
use fastiron_tofu.Config.Command.{Command, Document, is_top}
use fastiron_tofu.Acl.{IpFamily, ipv4_acl, IpRule, IpConfig, Platform}
use fastiron_tofu.Acl.Native.{native_ip_rule}
use fastiron_tofu.Acl.Validate.{validate_ip}
use fastiron_tofu.Acl.Validate.Facts.{IsRule}
use fastiron_tofu.Acl.Validate.Bounds.{HasNewRules, validate_ip-IsRule}
use fastiron_tofu.Acl.Configuration.Sections.{
  rules_of, one_if_some, rule_commands, foreign_texts, headers, Reads, Adds, loop-Adds,
}
use fastiron_tofu.Acl.Configuration.{
  Reading, nothing_read, has_sequence, add_rule, opens, top_line, rule_stored, rule_read, rule_line,
  unowned_line, is_passed_over, native_step, validated, native_ip,
}

-- No sequence is there twice.
abbrev pub HasDistinctSequences : List (ℤ × IpRule) → Type 0
HasDistinctSequences [] = Unit {0}
HasDistinctSequences ((n, r) ∷ more) =
    All (λ e. same_int n e.0 ≡ false) more × HasDistinctSequences more

has_sequence-All :
    (n : ℤ) (m : ℤ) (r : IpRule) (rules : List (ℤ × IpRule))
    → has_sequence n rules ≡ false
    → HasDistinctSequences rules
    → HasDistinctSequences (rules ++ (n, r) ∷ [])
has_sequence-All n m r [] h d = (tt, tt)
has_sequence-All n m r ((k, q) ∷ more) h (dk, d) = (
  All-append (λ e. same_int k e.0 ≡ false) more ((n, r) ∷ []) dk (ground arith, tt),
  has_sequence-All n m r more (ground arith) d,
)

module _ (go : Platform) (family : IpFamily) (name : Bytes) where
  abbrev IsConfig : Option IpConfig → Type 0
  IsConfig none = Unit {0}
  IsConfig (some p) = (p.family ≡ family) × ((p.name ≡ name) × HasDistinctSequences p.rules)

  top_line-IsConfig :
      (c : Command) (s t : Reading)
      → IsConfig s.current
      → top_line go family name c s ≡ ok t
      → IsConfig t.current
  unfolding top_line
  top_line-IsConfig c s t h e =
      let (_, _, e1) =
        >>=-eq-ok
          (reject_if
            (family == ipv4_acl && bytes_eq c.text (codes "ip access-list standard " ++ name))
            "ACL name belongs to a standard IPv4 ACL")
          _ e in
      elim (Bool-cases (opens go family name c)) [
        | inl header ↦
            let (_, _, e2) =
              >>=-eq-ok (reject_if (not (is_none s.current)) "duplicate native IP ACL") _
                (rw header at e1) in
            subst (λ u. IsConfig u.current) (ok-injective e2) (refl, (refl, tt))
        | inr other ↦ subst (λ u. IsConfig u.current) (ok-injective (rw other at e1)) h
      ]

  rule_stored-IsConfig :
      (s t : Reading) (r : IpRule) (current : Option IpConfig)
      → s.current ≡ current
      → IsConfig current
      → rule_stored go family name s r current ≡ ok t
      → IsConfig t.current
  rule_stored-IsConfig s t r none same h e =
      subst (λ u. IsConfig u.current) (ok-injective e) (subst IsConfig (sym same) tt)
  rule_stored-IsConfig s t r (some p) same (of_family, (of_name, distinct)) e =
      let (q, added, e1) = >>=-eq-ok (add_rule r p) (λ p. ok (record s { current = some p })) e in
      let (_, new, e2) =
        >>=-eq-ok (reject_if (has_sequence r.sequence p.rules) "duplicate native ACL sequence") _
          added in
      let more : IsConfig (some (record p { rules = p.rules ++ (r.sequence, r) ∷ [] })) = (
        of_family,
        (
          of_name,
          has_sequence-All r.sequence r.sequence r p.rules (reject_if-eq-ok _ _ new) distinct,
        ),
      ) in
      subst (λ u. IsConfig u.current) (ok-injective e1)
        (subst (λ q. IsConfig (some q)) (ok-injective e2) more)

  rule_line-IsConfig :
      (c : Command) (s t : Reading)
      → IsConfig s.current
      → rule_line go family name c s ≡ ok t
      → IsConfig t.current
  unfolding rule_line
  rule_line-IsConfig c s t h e = elim (Result-cases (native_ip_rule go c.fields family)) [
    | inl (r, stated) ↦
        rule_stored-IsConfig s t r s.current refl h
          (sym (ap (rule_read go family name s) stated) ∙ e)
    | inr (x, failed) ↦ absurd (ok-ne-err (sym (sym (ap (rule_read go family name s) failed) ∙ e)))
  ]

  native_step-IsConfig :
      (i : ℕ) (c : Command) (cs : List Command) (s t : Reading)
      → IsConfig s.current
      → native_step go family name i c s ≡ ok t
      → IsConfig t.current
  unfolding native_step
  native_step-IsConfig i c cs s t h e =
      elim (Bool-cases (is_passed_over go family name c c.fields)) [
        | inl passed ↦ subst (λ u. IsConfig u.current) (ok-injective (rw passed at e)) h
        | inr read ↦ elim (Bool-cases (is_top c)) [
          | inl top ↦ top_line-IsConfig c s t h (rw (read, top) at e)
          | inr below ↦ elim (Bool-cases s.active) [
            | inl active ↦ rule_line-IsConfig c s t h (
                ap (λ b. if b then rule_line go family name c s else ok (unowned_line c s))
                  (sym active)
                ∙ (rw (read, below) at e))
            | inr idle ↦
                subst (λ u. IsConfig u.current)
                  (ok-injective (
                    ap (λ b. if b then rule_line go family name c s else ok (unowned_line c s))
                      (sym idle)
                    ∙ (rw (read, below) at e)))
                  h
          ]
        ]
      ]

-- What nativeIP makes of a list that it finds: its family and name, rules that validateIP accepts,
-- no sequence twice, and the commands of the document shared out between the list and the rest.
pub record IsAdopted (go : Platform) (family : IpFamily) (name : Bytes) (d : Document)
    (p : IpConfig) (unowned : List Bytes) : Type 0 where
  pub of_family : p.family ≡ family
  pub of_name : p.name ≡ name
  pub one_header : headers go family name d.commands ≡ 1
  pub rules_read : Reads go family name (rule_commands go family name false d.commands) p.rules
  pub others_kept : unowned ≡ foreign_texts go family name false d.commands
  pub distinct : HasDistinctSequences p.rules
  pub within_bounds : All (IsRule family) p.rules
  pub new_rules : HasNewRules go [] p.rules

-- A list that nativeIP finds in a document has the family and name asked for, and the document has
-- its header once. Its rules are what nativeIPRule makes of the commands below that header, each
-- of them and no other, in their order; a command belongs to the list if the last top-level
-- command before it is the header. The texts of all other commands but the header are returned as
-- unowned; empty commands and "!" are passed over throughout. No two rules have one sequence; each
-- is within the bounds of validateIP: a sequence from 1 to 65000, permit or deny, logging for IPv6
-- only, a protocol of at most 254, ordered ports up to 65535 on TCP or UDP only, DSCP values of at
-- most 63 and a priority of at most 7. No rule repeats an earlier one under another sequence.
pub native_ip-IsAdopted :
    (go : Platform) (family : IpFamily) (name : Bytes) (d : Document) (p : IpConfig)
    (unowned : List Bytes)
    → native_ip go family name d ≡ ok (some p, unowned)
    → IsAdopted go family name d p unowned
unfolding native_ip
native_ip-IsAdopted go family name d p unowned e =
    let (s, looped, checked) =
      >>=-eq-ok (loop (native_step go family name) 0 d.commands nothing_read)
        (λ s. validated go family name s s.current) e in
    let (_, h) =
      loop_inv (λ i cs s. IsConfig go family name s.current) (native_step go family name)
        (native_step-IsConfig go family name) 0 d.commands nothing_read tt looped in
    adopted s s.current refl h
      (loop-Adds go family name 0 d.commands nothing_read s (λ h. absurd (ground arith)) looped)
      checked
  where
    some-injective : {a b : IpConfig} → some a ≡ some b → a ≡ b
    some-injective e = cc

    adopted :
        (s : Reading) (current : Option IpConfig)
        → s.current ≡ current
        → IsConfig go family name current
        → Adds go family name d.commands nothing_read s
        → validated go family name s current ≡ ok (some p, unowned)
        → IsAdopted go family name d p unowned
    adopted s none same h added checked = absurd (cc)
    adopted s (some q) same (of_family, (of_name, distinct)) added checked =
        let (_, valid, result) = >>=-eq-ok (validate_ip go q) _ checked in
        let (_, (_, (rules, new))) = validate_ip-IsRule go q valid in
        let rest : s.unowned ≡ unowned = ap (λ r. r.1) (ok-injective result) in
        let read : q.rules ≡ added.more = sym (ap rules_of same) ∙ added.grown in
        subst (λ p. IsAdopted go family name d p unowned)
          (some-injective (ap (λ r. r.0) (ok-injective result)))
          (record {
            of_family = of_family;
            of_name = of_name;
            one_header = omega (arith, added.opened, ap one_if_some same);
            rules_read =
                subst (Reads go family name (rule_commands go family name false d.commands))
                  (sym read) added.read;
            others_kept = sym rest ∙ added.rest;
            distinct = distinct;
            within_bounds = subst (λ f. All (IsRule f) q.rules) of_family rules;
            new_rules = new;
          })
