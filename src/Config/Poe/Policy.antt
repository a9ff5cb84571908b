-- ===== src/Config/Poe/Policy.antt =====
-- The policy that PoE reads, by the commands that state it.
use fastiron_tofu.Prelude.{
  reject_any-eq-ok, cut_prefix-eq-some, ◌++◌, ℕ, ◌≤◌, ◌≡◌, sym, ◌∙◌, ap, subst, Bool, true, false,
  not, ◌&&◌, ◌||◌, List, [], ◌∷◌, Bytes, Option, codes, Result, ok, ok-injective, ok-ne-err, ◌>>=◌,
  >>=-eq-ok, reject_if, reject_if-eq-ok, arith, ◌==◌, ltb, Option-cases, cut_prefix, inl, inr,
}
use Prim.Native.Nat.{bit_and}
use fastiron_tofu.Config.Command.{Command, Document, PoePolicy, inline_power_port, is_top}
use fastiron_tofu.Config.PortId.{parse_ethernet_port}
use fastiron_tofu.Config.Sift.{sift, sift_lem, kept_texts, owned_commands, consume_all}
use fastiron_tofu.Config.Interface.{interface_header}
use fastiron_tofu.Config.Poe.{poe_checks, PoeState, poe_start, poe_body, poe_role, poe}

-- A policy that PoE accepts: valid, with the port form at the top only, its priority from 1 to 3,
-- its class at most 4, and a power limit, where one is set, from 1000 to 95000 milliwatts.
abbrev pub IsPolicy : Command → Type 0
IsPolicy c =
    (c.valid ≡ true)
    × ((is_top c ≡ false → (c.kind == inline_power_port) ≡ false)
        × ((1 ≤ c.poe.priority)
            × ((c.poe.priority ≤ 3)
                × ((c.poe.power_by_class ≤ 4)
                    × ((bit_and c.poe_fields 4 == 0) ≡ false
                        → (1000 ≤ c.poe.power_limit_milliwatts)
                          × (c.poe.power_limit_milliwatts ≤ 95000))))))

-- The policy that some commands state: the default for none, and no policy for two.
abbrev pub StatesPoe : PoePolicy → List Command → Type 0
StatesPoe policy [] = policy ≡ poe_start.policy
StatesPoe policy (c ∷ []) = (policy ≡ c.poe) × IsPolicy c
StatesPoe policy (c ∷ d ∷ more) = ⊥

shape_facts :
    (seen valid top port : Bool)
    → (seen || not valid || not top && port) ≡ false
    → (seen ≡ false) × ((valid ≡ true) × (top ≡ false → port ≡ false))
shape_facts seen valid top port h = (ground arith, (ground arith, λ low. ground arith))

range_facts :
    (priority class : ℕ)
    → (ltb priority 1 || ltb 3 priority || ltb 4 class) ≡ false
    → (1 ≤ priority) × ((priority ≤ 3) × (class ≤ 4))
range_facts priority class h = (ground arith, (ground arith, ground arith))

limit_facts :
    (unset : Bool) (limit : ℕ)
    → (not unset && (ltb limit 1000 || ltb 95000 limit)) ≡ false
    → unset ≡ false
    → (1000 ≤ limit) × (limit ≤ 95000)
limit_facts unset limit h set = (ground arith, ground arith)

poe_body-eq-ok :
    (raw : Bytes) (c : Command) (s t : PoeState)
    → poe_body raw c s ≡ ok t
    → (s.seen ≡ false) × ((t.seen ≡ true) × ((t.policy ≡ c.poe) × IsPolicy c))
unfolding poe_body
poe_body-eq-ok raw c s t e =
    let ((_, (shape, (range, (limit, _)))), made) =
      reject_any-eq-ok (poe_checks raw c s.seen) (ok (record { policy = c.poe; seen = true })) e in
    let (unseen, (valid, form)) =
      shape_facts s.seen c.valid (is_top c) (c.kind == inline_power_port) shape in
    let (low, (high, class)) = range_facts c.poe.priority c.poe.power_by_class range in
    (
      unseen,
      (
        ap (λ u. u.seen) (sym (ok-injective made)),
        (
          ap (λ u. u.policy) (sym (ok-injective made)),
          (
            valid,
            (
              form,
              (
                low,
                (
                  high,
                  (
                    class,
                    limit_facts (bit_and c.poe_fields 4 == 0) c.poe.power_limit_milliwatts limit,
                  ),
                ),
              ),
            ),
          ),
        ),
      ),
    )

consume_all-StatesPoe :
    (raw : Bytes) (cs : List Command) (t : PoeState)
    → consume_all (poe_body raw) cs poe_start ≡ ok t
    → StatesPoe t.policy cs
unfolding consume_all
consume_all-StatesPoe raw [] t e = ap (λ u. u.policy) (sym (ok-injective e))
consume_all-StatesPoe raw (c ∷ []) t e =
    let (u, stepped, later) = >>=-eq-ok (poe_body raw c poe_start) _ e in
    let (_, (_, (policy, good))) = poe_body-eq-ok raw c poe_start u stepped in
    (ap (λ v. v.policy) (sym (ok-injective later)) ∙ policy, good)
consume_all-StatesPoe raw (c ∷ d ∷ more) t e =
    let (u, stepped, later) =
      >>=-eq-ok (poe_body raw c poe_start) (λ u. consume_all (poe_body raw) (d ∷ more) u) e in
    let (_, (seen, _)) = poe_body-eq-ok raw c poe_start u stepped in
    let (v, again, _) = >>=-eq-ok (poe_body raw d u) _ later in
    let (unseen, _) = poe_body-eq-ok raw d u v again in absurd (cc)

-- Port `raw` has this policy, beside the commands that state none.
abbrev pub HasPoe : Document → Bytes → PoePolicy → List Bytes → Type 0
HasPoe d raw policy remaining =
    (header : Option ℕ) × ((interface_header d (codes "ethernet " ++ raw) ≡ ok header)
      × (StatesPoe policy (owned_commands (poe_role header raw) 0 d.commands)
          × (remaining ≡ kept_texts (poe_role header raw) 0 d.commands)))

-- An answer of PoE is for a name of the form ethernet with a port that parses. Its policy is the
-- default where no command states one, else that of the only command that does, which is valid,
-- has a priority from 1 to 3, a class of at most 4 and, where it sets a power limit, one from 1000
-- to 95000 milliwatts, and is no port command inside a stanza. The remaining text is that of all
-- other commands but the header, in order.
pub poe-HasPoe :
    (d : Document) (name : Bytes) (policy : PoePolicy) (remaining : List Bytes)
    → poe d name ≡ ok (policy, remaining)
    → (raw : Bytes) × ((name ≡ codes "ethernet " ++ raw)
        × (((parse_ethernet_port raw).1 ≡ true) × HasPoe d raw policy remaining))
unfolding poe
poe-HasPoe d name policy remaining e = elim (Option-cases (cut_prefix (codes "ethernet ") name)) [
  | inl missing ↦ absurd (ok-ne-err (sym (rw missing at e)))
  | inr (raw, found) ↦
      let whole = cut_prefix-eq-some (codes "ethernet ") name raw found in
      let (_, port, e1) =
        >>=-eq-ok
          (reject_if (not (parse_ethernet_port raw).1) "PoE requires a canonical Ethernet identity")
          (λ _. below d name raw) (rw found at e) in
      let (header, at, e2) =
        >>=-eq-ok (interface_header d name) (λ header. read_at d raw header) e1 in
      let (made, sifted, e3) =
        >>=-eq-ok (sift (poe_role header raw) (poe_body raw) d.commands poe_start)
          (λ r. ok (r.0.policy, r.1)) e2 in
      let (t, consumed, e4) =
        >>=-eq-ok
          (consume_all (poe_body raw) (owned_commands (poe_role header raw) 0 d.commands) poe_start)
          (λ t. ok (t, kept_texts (poe_role header raw) 0 d.commands))
          (sym (sift_lem (poe_role header raw) (poe_body raw) d.commands poe_start) ∙ sifted) in
      let result : (t.policy, kept_texts (poe_role header raw) 0 d.commands) ≡ (policy, remaining) =
        ok-injective (ap (λ r. r >>= λ r. ok (r.0.policy, r.1)) e4 ∙ e3) in
      (
        raw,
        (
          whole,
          (
            not_false _ (reject_if-eq-ok _ _ port),
            (
              header,
              (
                subst (λ n. interface_header d n ≡ ok header) whole at,
                (
                  subst (λ q. StatesPoe q (owned_commands (poe_role header raw) 0 d.commands))
                      (ap (λ r. r.0) result)
                      (consume_all-StatesPoe raw (owned_commands (poe_role header raw) 0 d.commands)
                        t consumed),
                  sym (ap (λ r. r.1) result),
                ),
              ),
            ),
          ),
        ),
      )
]
  where
    read_at : Document → Bytes → Option ℕ → Result (PoePolicy × List Bytes)
    read_at d raw header = do
      (s, remaining) ← sift (poe_role header raw) (poe_body raw) d.commands poe_start
      ok (s.policy, remaining)

    below : Document → Bytes → Bytes → Result (PoePolicy × List Bytes)
    below d name raw = do header ← interface_header d name; read_at d raw header

    not_false : (b : Bool) → not b ≡ false → b ≡ true
    not_false b h = ground arith
