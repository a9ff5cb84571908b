-- ===== src/Acl/Configuration/Sections.antt =====
-- The commands of a document that belong to one access list, and what nativeIP makes of them.
use fastiron_tofu.Prelude.{
  subst, ℕ, ◌+◌, ◌≡◌, refl, sym, ◌∙◌, ap, ℤ, Bool, true, false, not, ◌&&◌, List, [], ◌∷◌, ◌++◌,
  append-nil, append_assoc, subst, Option, none, some, Bytes, codes, ok, ok-injective, ok-ne-err,
  >>=-eq-ok, reject_if, reject_if-eq-ok, arith, inl, inr, if◌then◌else◌, bytes_eq, ◌==◌, loop,
  Bool-cases, Result-cases, is_none,
}
use fastiron_tofu.Config.Command.{Command, is_top}
use fastiron_tofu.Acl.{IpFamily, ipv4_acl, IpRule, IpConfig, Platform}
use fastiron_tofu.Acl.Native.{native_ip_rule}
use fastiron_tofu.Acl.Configuration.{
  Reading, add_rule, has_sequence, opens, top_line, rule_stored, rule_read, rule_line, unowned_line,
  is_passed_over, native_step,
}

abbrev pub rules_of : Option IpConfig → List (ℤ × IpRule)
rules_of none = []
rules_of (some p) = p.rules

abbrev pub one_if_some : Option IpConfig → ℕ
one_if_some none = 0
one_if_some (some p) = 1

module _ (go : Platform) (family : IpFamily) (name : Bytes) where
  abbrev pub passes : Command → Bool
  passes c = is_passed_over go family name c c.fields

  -- The header of the list.
  abbrev pub is_header : Command → Bool
  is_header c = not (passes c) && is_top c && opens go family name c

  -- Whether the last command at the top level, up to this one, is the header.
  abbrev pub within : Bool → Command → Bool
  within inside c = if passes c then inside else if is_top c then opens go family name c else inside

  -- A command below the header.
  abbrev pub own : Bool → Command → List Command
  own inside c = if passes c then [] else if is_top c then [] else if inside then c ∷ [] else []

  -- The text of any other command than the header.
  abbrev pub foreign : Bool → Command → List Bytes
  foreign inside c =
      if passes c
      then []
      else if is_top c
      then if opens go family name c then [] else c.text ∷ []
      else if inside
      then []
      else c.text ∷ []

  pub rule_commands : Bool → List Command → List Command
  rule_commands inside [] = []
  rule_commands inside (c ∷ cs) = own inside c ++ rule_commands (within inside c) cs

  pub foreign_texts : Bool → List Command → List Bytes
  foreign_texts inside [] = []
  foreign_texts inside (c ∷ cs) = foreign inside c ++ foreign_texts (within inside c) cs

  pub headers : List Command → ℕ
  headers [] = 0
  headers (c ∷ cs) = (if is_header c then 1 else 0) + headers cs

  -- Each rule is what nativeIPRule makes of its command, in order, under its own sequence.
  abbrev pub Reads : List Command → List (ℤ × IpRule) → Type 0
  Reads [] [] = Unit {0}
  Reads (c ∷ cs) ((n, r) ∷ rules) =
      (native_ip_rule go c.fields family ≡ ok r) × ((r.sequence ≡ n) × Reads cs rules)
  Reads _ _ = ⊥

  Reads-append :
      (cs ds : List Command) (rules more : List (ℤ × IpRule))
      → Reads cs rules
      → Reads ds more
      → Reads (cs ++ ds) (rules ++ more)
  Reads-append [] ds [] more h k = k
  Reads-append [] ds (r ∷ rules) more h k = absurd h
  Reads-append (c ∷ cs) ds [] more h k = absurd h
  Reads-append (c ∷ cs) ds ((n, r) ∷ rules) more (a, (b, h)) k =
      (a, (b, Reads-append cs ds rules more h k))

  -- An active reading has a list to write to.
  abbrev pub IsBacked : Reading → Type 0
  IsBacked s = s.active ≡ true → is_none s.current ≡ false

  record Stepped (c : Command) (s t : Reading) : Type 0 where
    pub active : t.active ≡ within s.active c
    pub backed : IsBacked t
    pub more : List (ℤ × IpRule)
    pub grown : rules_of t.current ≡ rules_of s.current ++ more
    pub read : Reads (own s.active c) more
    pub rest : t.unowned ≡ s.unowned ++ foreign s.active c
    pub opened : one_if_some t.current ≡ one_if_some s.current + (if is_header c then 1 else 0)

  Stepped-subst :
      (c : Command) (s : Reading) {t u : Reading} → t ≡ u → Stepped c s t → Stepped c s u
  Stepped-subst c s e h = subst (Stepped c s) e h

  sym_nil : {A : Type 0} (xs : List A) → xs ≡ xs ++ []
  sym_nil xs = sym (append-nil xs)

  passed_over-Stepped : (c : Command) (s : Reading) → IsBacked s → passes c ≡ true → Stepped c s s
  passed_over-Stepped c s backed h = record {
    active = ground arith;
    backed = backed;
    more = [];
    grown = sym_nil (rules_of s.current);
    read = rw h tt;
    rest = rw h (sym_nil s.unowned);
    opened = ground arith;
  }

  top_line-Stepped :
      (c : Command) (s t : Reading)
      → passes c ≡ false
      → is_top c ≡ true
      → top_line go family name c s ≡ ok t
      → Stepped c s t
  unfolding top_line
  top_line-Stepped c s t read top e =
      let (_, _, e1) =
        >>=-eq-ok
          (reject_if
            (family == ipv4_acl && bytes_eq c.text (codes "ip access-list standard " ++ name))
            "ACL name belongs to a standard IPv4 ACL")
          _ e in
      elim (Bool-cases (opens go family name c)) [
        | inl header ↦
            let (_, new, e2) =
              >>=-eq-ok (reject_if (not (is_none s.current)) "duplicate native IP ACL") _
                (rw header at e1) in
            let fresh : is_none s.current ≡ true = not_some _ (reject_if-eq-ok _ _ new) in
            Stepped-subst c s (ok-injective e2) (record {
              active = rw (read, top, header) refl;
              backed = λ h. refl;
              more = [];
              grown = empty s.current fresh;
              read = rw (read, top) tt;
              rest = rw (read, top, header) (sym_nil s.unowned);
              opened = rw (read, top, header) (first s.current fresh);
            })
        | inr other ↦ Stepped-subst c s (ok-injective (rw other at e1)) (record {
          active = rw (read, top, other) refl;
          backed = λ h. ground arith;
          more = [];
          grown = sym_nil (rules_of s.current);
          read = rw (read, top) tt;
          rest = rw (read, top, other) refl;
          opened = rw (read, top, other) (omega arith);
        })
      ]
    where
      not_some : (b : Bool) → not b ≡ false → b ≡ true
      not_some b h = ground arith

      empty : (p : Option IpConfig) → is_none p ≡ true → [] ≡ rules_of p ++ []
      empty none h = refl
      empty (some p) h = ground arith

      first : (p : Option IpConfig) → is_none p ≡ true → 1 ≡ one_if_some p + 1
      first none h = refl
      first (some p) h = ground arith

  rule_stored-Stepped :
      (c : Command) (s t : Reading) (r : IpRule) (current : Option IpConfig)
      → passes c ≡ false
      → is_top c ≡ false
      → s.active ≡ true
      → is_none current ≡ false
      → native_ip_rule go c.fields family ≡ ok r
      → s.current ≡ current
      → rule_stored go family name s r current ≡ ok t
      → Stepped c s t
  rule_stored-Stepped c s t r none read below inside there stated same e = absurd (ground arith)
  rule_stored-Stepped c s t r (some p) read below inside there stated same e =
      let (q, added, e1) = >>=-eq-ok (add_rule r p) (λ p. ok (record s { current = some p })) e in
      let (_, _, e2) =
        >>=-eq-ok (reject_if (has_sequence r.sequence p.rules) "duplicate native ACL sequence") _
          added in
      let stored : Reading = record s {
        current = some (record p { rules = p.rules ++ (r.sequence, r) ∷ [] });
      } in
      let same_end : stored ≡ t =
        ap (λ q. record s { current = some q }) (ok-injective e2) ∙ ok-injective e1 in
      Stepped-subst c s same_end (record {
        active = rw (read, below) refl;
        backed = λ h. refl;
        more = (r.sequence, r) ∷ [];
        grown = rw same refl;
        read = rw (read, below, inside) (stated, (refl, tt));
        rest = rw (read, below, inside) (sym_nil s.unowned);
        opened = rw (read, below, same) refl;
      })

  idle-Stepped :
      (c : Command) (s : Reading)
      → IsBacked s
      → passes c ≡ false
      → is_top c ≡ false
      → s.active ≡ false
      → Stepped c s (unowned_line c s)
  idle-Stepped c s backed read below idle = record {
    active = rw (read, below) refl;
    backed = backed;
    more = [];
    grown = sym_nil (rules_of s.current);
    read = rw (read, below, idle) tt;
    rest = rw (read, below, idle) refl;
    opened = rw (read, below) (omega arith);
  }

  rule_line-Stepped :
      (c : Command) (s t : Reading)
      → IsBacked s
      → passes c ≡ false
      → is_top c ≡ false
      → s.active ≡ true
      → rule_line go family name c s ≡ ok t
      → Stepped c s t
  unfolding rule_line
  rule_line-Stepped c s t backed read below inside e =
      elim (Result-cases (native_ip_rule go c.fields family)) [
        | inl (r, stated) ↦
            rule_stored-Stepped c s t r s.current read below inside (backed inside) stated refl
              (sym (ap (rule_read go family name s) stated) ∙ e)
        | inr (x, failed) ↦
            absurd (ok-ne-err (sym (sym (ap (rule_read go family name s) failed) ∙ e)))
      ]

  native_step-Stepped :
      (i : ℕ) (c : Command) (s t : Reading)
      → IsBacked s
      → native_step go family name i c s ≡ ok t
      → Stepped c s t
  unfolding native_step
  native_step-Stepped i c s t backed e = elim (Bool-cases (passes c)) [
    | inl passed ↦
        Stepped-subst c s (ok-injective (rw passed at e)) (passed_over-Stepped c s backed passed)
    | inr read ↦ elim (Bool-cases (is_top c)) [
      | inl top ↦ top_line-Stepped c s t read top (rw (read, top) at e)
      | inr below ↦ elim (Bool-cases s.active) [
        | inl inside ↦ rule_line-Stepped c s t backed read below inside (
            ap (λ b. if b then rule_line go family name c s else ok (unowned_line c s)) (sym inside)
            ∙ (rw (read, below) at e))
        | inr idle ↦
            Stepped-subst c s
              (ok-injective (
                ap (λ b. if b then rule_line go family name c s else ok (unowned_line c s))
                  (sym idle)
                ∙ (rw (read, below) at e)))
              (idle-Stepped c s backed read below idle)
      ]
    ]
  ]

  -- What the loop adds to a reading.
  pub record Adds (cs : List Command) (s t : Reading) : Type 0 where
    pub more : List (ℤ × IpRule)
    pub grown : rules_of t.current ≡ rules_of s.current ++ more
    pub read : Reads (rule_commands s.active cs) more
    pub rest : t.unowned ≡ s.unowned ++ foreign_texts s.active cs
    pub opened : one_if_some t.current ≡ one_if_some s.current + headers cs

  pub loop-Adds :
      (i : ℕ) (cs : List Command) (s t : Reading)
      → IsBacked s
      → loop (native_step go family name) i cs s ≡ ok t
      → Adds cs s t
  unfolding loop rule_commands foreign_texts headers
  loop-Adds i [] s t backed e = subst (Adds [] s) (ok-injective e) (record {
    more = [];
    grown = sym_nil (rules_of s.current);
    read = tt;
    rest = sym_nil s.unowned;
    opened = omega arith;
  })
  loop-Adds i (c ∷ cs) s t backed e =
      let (u, stepped, later) =
        >>=-eq-ok (native_step go family name i c s)
          (λ u. loop (native_step go family name) (i + 1) cs u) e in
      let first = native_step-Stepped i c s u backed stepped in
      let then_on = loop-Adds (i + 1) cs u t first.backed later in
      record {
        more = first.more ++ then_on.more;
        grown =
            then_on.grown
            ∙ ap (λ l. l ++ then_on.more) first.grown
            ∙ append_assoc (rules_of s.current) first.more then_on.more;
        read =
            Reads-append (own s.active c) (rule_commands (within s.active c) cs) first.more
              then_on.more first.read
              (subst (λ a. Reads (rule_commands a cs) then_on.more) first.active then_on.read);
        rest =
            then_on.rest
            ∙ ap (λ a. u.unowned ++ foreign_texts a cs) first.active
            ∙ ap (λ l. l ++ foreign_texts (within s.active c) cs) first.rest
            ∙ append_assoc s.unowned (foreign s.active c) (foreign_texts (within s.active c) cs);
        opened = omega (arith, first.opened, then_on.opened);
      }
