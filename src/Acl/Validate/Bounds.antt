-- ===== src/Acl/Validate/Bounds.antt =====
-- What validateIP lets through.
use fastiron_tofu.Acl.Validate.Facts.{
  ==-true, between, same_int-eq, exceeds-FitsWithin, IsPortRange_lem, either_action, first_of,
  log_family, when_not, last_of, IsRule,
}
use fastiron_tofu.Prelude.{
  ◌≤◌, ◌≡◌, ℤ, same_int, false, not, List, [], ◌∷◌, codes, ok, reject_any-eq-ok, ◌==◌, bytes_eq,
  bytes_eq_iff, length, All, arith, ◌⊎◌, inl, inr,
}
use fastiron_tofu.Acl.{IpFamily, ipv4_acl, ipv6_acl, IpRule, IpConfig, Platform}
use fastiron_tofu.Acl.Validate.{
  config_checks, rule_checks, validate_rules, validate_ip, is_repeated,
}

module _ (go : Platform) where
  rule_checks-IsRule :
      (family : IpFamily) (seen : List IpRule) (entry : ℤ × IpRule)
      → All (λ c. c.0 ≡ false) (rule_checks go family seen entry)
      → IsRule family entry × (is_repeated entry.1 seen ≡ false)
  rule_checks-IsRule family seen (sequence, r)
        (
          number,
          (
            action,
            (
              log,
              (
                _,
                (
                  _,
                  (
                    _,
                    (
                      _,
                      (
                        protocol,
                        (
                          tcp_s,
                          (source, (tcp_d, (destination, (dscp, (mark, (priority, (new, _))))))),
                        ),
                      ),
                    ),
                  ),
                ),
              ),
            ),
          ),
        ) =
      (
        (
          between 1 65000 sequence (first_of _ (not (same_int sequence r.sequence)) number),
          (
            same_int-eq sequence r.sequence (
                when_not (same_int sequence r.sequence)
                  (last_of _ (not (same_int sequence r.sequence)) number)),
            (
              elim (either_action (bytes_eq r.action (codes "permit"))
                  (bytes_eq r.action (codes "deny")) action) [
                    | inl permit ↦ inl ((bytes_eq_iff r.action (codes "permit")).0 permit)
                    | inr deny ↦ inr ((bytes_eq_iff r.action (codes "deny")).0 deny)
                  ],
              (
                (λ on. ==-true family ipv6_acl (log_family r.log (family == ipv6_acl) log on)),
                (
                  exceeds-FitsWithin r.protocol 254 (first_of _ _ protocol),
                  (
                    IsPortRange_lem r r.source_port tcp_s source,
                    (
                      IsPortRange_lem r r.destination_port tcp_d destination,
                      (
                        exceeds-FitsWithin r.dscp 63 dscp,
                        (
                          exceeds-FitsWithin r.dscp_mark 63 mark,
                          exceeds-FitsWithin r.priority 7 priority,
                        ),
                      ),
                    ),
                  ),
                ),
              ),
            ),
          ),
        ),
        new,
      )

  -- No rule repeats one of `seen` or an earlier one.
  abbrev pub HasNewRules : List IpRule → List (ℤ × IpRule) → Type 0
  HasNewRules seen [] = Unit {0}
  HasNewRules seen (entry ∷ more) =
      (is_repeated entry.1 seen ≡ false) × HasNewRules (entry.1 ∷ seen) more

  validate_rules-IsRule :
      (family : IpFamily) (seen : List IpRule) (rules : List (ℤ × IpRule))
      → validate_rules go family seen rules ≡ ok tt
      → All (IsRule family) rules × HasNewRules seen rules
  unfolding validate_rules
  validate_rules-IsRule family seen [] h = (tt, tt)
  validate_rules-IsRule family seen (entry ∷ more) h =
      let (clear, later) =
        reject_any-eq-ok (rule_checks go family seen entry)
          (validate_rules go family (entry.1 ∷ seen) more) h in
      let (good, new) = rule_checks-IsRule family seen entry clear in
      let (goods, news) = validate_rules-IsRule family (entry.1 ∷ seen) more later in
      ((good, goods), (new, news))

  -- A list that validateIP accepts is of IPv4 or IPv6, with a name of at most 47 bytes. Each rule
  -- has a sequence from 1 to 65000 that is its key, permits or denies, logs for IPv6 only, and has
  -- a protocol of at most 254, ordered ports up to 65535 on TCP or UDP only, DSCP values of at
  -- most 63 and a priority of at most 7, each where it is set. No rule repeats an earlier one
  -- under another sequence.
  pub validate_ip-IsRule :
      (p : IpConfig)
      → validate_ip go p ≡ ok tt
      → ((p.family ≡ ipv4_acl) ⊎ (p.family ≡ ipv6_acl))
        × ((length p.name ≤ 47) × (All (IsRule p.family) p.rules × HasNewRules [] p.rules))
  unfolding validate_ip
  validate_ip-IsRule p h =
      let ((family, (_, (short, _))), rules) =
        reject_any-eq-ok (config_checks go p) (validate_rules go p.family [] p.rules) h in
      (
        elim (either_action (p.family == ipv4_acl) (p.family == ipv6_acl) family) [
          | inl four ↦ inl (==-true p.family ipv4_acl four)
          | inr six ↦ inr (==-true p.family ipv6_acl six)
        ],
        (ground arith, validate_rules-IsRule p.family [] p.rules rules),
      )
