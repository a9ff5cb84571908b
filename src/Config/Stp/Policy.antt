-- ===== src/Config/Stp/Policy.antt =====
-- The policy that STPVLAN reads, against the owned commands.
use fastiron_tofu.Prelude.{
  ℕ, ◌+◌, ◌≤◌, ◌≡◌, refl, sym, ◌∙◌, ap, subst, Bool, true, false, not, ◌||◌, List, [], ◌∷◌, Bytes,
  Option, none, some, Result, ok, ok-injective, ◌>>=◌, ◌>>◌, String, >>=-eq-ok, bytes_eq,
  bytes_eq_iff, All, arith, if◌then◌else◌, ◌==◌, ltb, loop, places, count, reject_if,
}
use fastiron_tofu.Config.Command.{Command, Document, spanning_tree}
use fastiron_tofu.Config.Sift.{consume_all, owned_commands, kept_texts, sift, sift_lem}
use fastiron_tofu.Config.Stp.Header.{is_vlan, listed, vlan_header-listed}
use fastiron_tofu.Config.Stp.{
  StpVlan, StpState, no_stp, policy_or, stp_setting, stp_body, stp_role, stp_vlan, vlan_header_step,
}

-- The priority that the last command with one sets.
abbrev pub last_priority : ℕ → List Command → ℕ
last_priority p [] = p
last_priority p (c ∷ cs) = last_priority (if c.options then c.number else p) cs

-- A valid mode command of this mode with a 16-bit priority.
abbrev pub IsSetting : Bytes → Command → Type 0
IsSetting mode c = (c.valid ≡ true) × ((mode ≡ c.family) × (c.number ≤ 65535))

abbrev pub priorities : List Command → ℕ
priorities = count (λ c. c.options)

abbrev pub modes : List Command → ℕ
modes = count (λ c. not c.options)

abbrev bit : Bool → ℕ
bit b = if b then 1 else 0

-- One command in the policy `p`.
abbrev Extends : Command → StpVlan → StpState → StpState → Type 0
Extends c p s t =
    (t.policy ≡ some (record p { priority = if c.options then c.number else p.priority }))
    × ((p.mode ≡ c.family)
        × ((bit t.priority_seen ≡ bit s.priority_seen + bit c.options)
            × (bit t.mode_seen ≡ bit s.mode_seen + bit (not c.options))))

stp_setting-Extends :
    (c : Command) (p : StpVlan) (s t : StpState) → stp_setting c p s ≡ ok t → Extends c p s t
unfolding stp_setting
stp_setting-Extends c p s t e =
    let same : bytes_eq p.mode c.family ≡ true = ground arith in
    let equal = (bytes_eq_iff p.mode c.family).0 same in
    let flagged : ((bit t.priority_seen ≡ bit s.priority_seen + bit c.options)
        × (bit t.mode_seen ≡ bit s.mode_seen + bit (not c.options))) =
      ground arith in
    let policy : t.policy
        ≡ some (record p { priority = if c.options then c.number else p.priority }) =
      ground arith in
    (policy, (equal, flagged))

guarded :
    (a b : Bool) (x y : String) (m : Result StpState) (t : StpState)
    → (reject_if a x >> (reject_if b y >> m)) ≡ ok t
    → (a ≡ false) × ((b ≡ false) × (m ≡ ok t))
guarded true b x y m t e = cc
guarded false true x y m t e = cc
guarded false false x y m t e = (refl, (refl, e))

stp_body-Extends :
    (id : ℕ) (c : Command) (s t : StpState)
    → stp_body id c s ≡ ok t
    → Extends c (policy_or id c s.policy) s t × ((c.valid ≡ true) × (c.number ≤ 65535))
unfolding stp_body
stp_body-Extends id c s t e =
    let (usable, (fits, set)) =
      guarded (not c.valid || not (c.kind == spanning_tree)) (ltb 65535 c.number)
        "native VLAN has malformed or unsupported spanning-tree settings"
        "invalid native spanning-tree bridge priority" (stp_setting c (policy_or id c s.policy) s) t
        e in
    let valid : c.valid ≡ true = ground arith in
    let in_range : c.number ≤ 65535 = ground arith in
    (stp_setting-Extends c (policy_or id c s.policy) s t set, (valid, in_range))

-- The rest of the commands, for the policy `p`.
abbrev Reads : StpVlan → List Command → StpState → StpState → Type 0
Reads p cs s r =
    (r.policy ≡ some (record p { priority = last_priority p.priority cs }))
    × (All (IsSetting p.mode) cs
        × ((bit r.priority_seen ≡ bit s.priority_seen + priorities cs)
            × (bit r.mode_seen ≡ bit s.mode_seen + modes cs)))

count-cons :
    (p : Command → Bool) (c : Command) (cs : List Command)
    → count p (c ∷ cs) ≡ bit (p c) + count p cs
count-cons p c cs = ground arith

consume_all-Reads :
    (id : ℕ) (cs : List Command) (p : StpVlan) (s r : StpState)
    → s.policy ≡ some p
    → consume_all (stp_body id) cs s ≡ ok r
    → Reads p cs s r
unfolding consume_all
consume_all-Reads id [] p s r has e =
    let same = ok-injective e in
    (
      ap (λ x. x.policy) (sym same) ∙ has,
      (
        tt,
        (
          omega (arith, ap (λ x. bit x.priority_seen) same),
          omega (arith, ap (λ x. bit x.mode_seen) same),
        ),
      ),
    )
consume_all-Reads id (c ∷ cs) p s r has e =
    let (t, stepped, later) = >>=-eq-ok (stp_body id c s) (λ t. consume_all (stp_body id) cs t) e in
    let ((policy, (mode, (priority, modes_seen))), (valid, fits)) =
      subst (λ o. Extends c (policy_or id c o) s t × ((c.valid ≡ true) × (c.number ≤ 65535))) has
        (stp_body-Extends id c s t stepped) in
    let (whole, (settings, (priorities_after, modes_after))) =
      consume_all-Reads id cs _ t r policy later in
    (
      whole,
      (
        ((valid, (mode, fits)), settings),
        (
          omega (arith, priority, priorities_after, count-cons (λ c. c.options) c cs),
          omega (arith, modes_seen, modes_after, count-cons (λ c. not c.options) c cs),
        ),
      ),
    )

-- What the owned commands of a VLAN say, with no command read before.
abbrev pub stated_policy : ℕ → List Command → Option StpVlan
stated_policy id [] = none
stated_policy id (c ∷ cs) =
    some (record { vlan_id = id; mode = c.family; priority = last_priority 32768 (c ∷ cs) })

abbrev pub AreSettings : List Command → Type 0
AreSettings [] = Unit
AreSettings (c ∷ cs) = All (IsSetting c.family) (c ∷ cs)

at_most_once : (a : Bool) (n : ℕ) → bit a ≡ n → n ≤ 1
at_most_once a n e = ground arith

consume_all-stated :
    (id : ℕ) (cs : List Command) (r : StpState)
    → consume_all (stp_body id) cs no_stp ≡ ok r
    → (r.policy ≡ stated_policy id cs) × (AreSettings cs × ((priorities cs ≤ 1) × (modes cs ≤ 1)))
unfolding consume_all
consume_all-stated id [] r e =
    (ap (λ x. x.policy) (sym (ok-injective e)), (tt, (omega arith, omega arith)))
consume_all-stated id (c ∷ cs) r e =
    let (t, stepped, later) =
      >>=-eq-ok (stp_body id c no_stp) (λ t. consume_all (stp_body id) cs t) e in
    let ((policy, (mode, (priority, modes_seen))), (valid, fits)) =
      stp_body-Extends id c no_stp t stepped in
    let (whole, (settings, (priorities_after, modes_after))) =
      consume_all-Reads id cs _ t r policy later in
    (
      whole,
      (
        ((valid, (mode, fits)), settings),
        (
          at_most_once r.priority_seen _
              (omega (arith, priority, priorities_after, count-cons (λ c. c.options) c cs)),
          at_most_once r.mode_seen _
              (omega (arith, modes_seen, modes_after, count-cons (λ c. not c.options) c cs)),
        ),
      ),
    )

abbrev read_stp : Document → ℕ → Option ℕ → Result (Option StpVlan × List Bytes)
read_stp d id h = sift (stp_role h) (stp_body id) d.commands no_stp >>= λ f. ok (f.0.policy, f.1)

abbrev find_stp : Document → ℕ → Result (Option StpVlan × List Bytes)
find_stp d id = loop (vlan_header_step id) 0 d.commands none >>= read_stp d id

-- The answer of STPVLAN: the VLAN's only header, what its owned commands state, and the rest.
abbrev pub StatesPolicy : Document → ℕ → Option StpVlan → List Bytes → Type 0
StatesPolicy d id policy remaining =
    (header : Option ℕ) × ((places (is_vlan id) 0 d.commands ≡ listed header)
      × ((policy ≡ stated_policy id (owned_commands (stp_role header) 0 d.commands))
          × (AreSettings (owned_commands (stp_role header) 0 d.commands)
              × ((priorities (owned_commands (stp_role header) 0 d.commands) ≤ 1)
                  × ((modes (owned_commands (stp_role header) 0 d.commands) ≤ 1)
                      × (remaining ≡ kept_texts (stp_role header) 0 d.commands))))))

-- A policy that STPVLAN returns is what the spanning-tree commands below the only header of the
-- VLAN state: none without such a command, else their one mode and the last priority set, with
-- 32768 for none. All of them are valid and of that mode with a priority of at most 65535, the
-- mode and the priority are each set at most once, and the remaining text is that of every other
-- command in order.
pub stp_vlan-StatesPolicy :
    (d : Document) (id : ℕ) (policy : Option StpVlan) (remaining : List Bytes)
    → stp_vlan d id ≡ ok (policy, remaining)
    → StatesPolicy d id policy remaining
unfolding stp_vlan
stp_vlan-StatesPolicy d id policy remaining e =
    let (u, in_range, chosen) =
      >>=-eq-ok (reject_if (ltb id 1 || ltb 4095 id) "invalid spanning-tree VLAN identity")
        (λ _. find_stp d id) e in
    let (header, at, read) =
      >>=-eq-ok (loop (vlan_header_step id) 0 d.commands none) (λ h. read_stp d id h) chosen in
    let (found, sifted, result) =
      >>=-eq-ok (sift (stp_role header) (stp_body id) d.commands no_stp) (λ f. ok (f.0.policy, f.1))
        read in
    let (r, folded, kept_so) =
      >>=-eq-ok (consume_all (stp_body id) (owned_commands (stp_role header) 0 d.commands) no_stp)
        (λ r. ok (r, kept_texts (stp_role header) 0 d.commands))
        (sym (sift_lem (stp_role header) (stp_body id) d.commands no_stp) ∙ sifted) in
    let (stated, (settings, (once, one_mode))) =
      consume_all-stated id (owned_commands (stp_role header) 0 d.commands) r folded in
    let pair = ok-injective kept_so in
    let out = ok-injective result in
    (
      header,
      (
        vlan_header-listed id 0 d.commands at,
        (
          sym (ap (λ x. x.0) out) ∙ (ap (λ x. x.0.policy) (sym pair) ∙ stated),
          (settings, (once, (one_mode, sym (ap (λ x. x.1) out) ∙ sym (ap (λ x. x.1) pair)))),
        ),
      ),
    )
