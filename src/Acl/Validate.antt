-- ===== src/Acl/Validate.antt =====
-- internal/features/acl/ip.go: `validateIP`. The rules are checked in the order of the list.
pub mod Facts
pub mod Bounds
use fastiron_tofu.Prelude.{
  ℕ, ◌+◌, ℤ, pos, negsuc, is_below, is_above, equals, same_int, less_int, to_nat, Bool, true, false,
  not, ◌&&◌, ◌||◌, List, [], ◌∷◌, Option, none, some, Bytes, codes, Result, ok, err, Error, message,
  formatted, ◌>>=◌, ◌>>◌, reject, reject_any, ◌==◌, ltb, bytes_eq, has_byte, length, same_flag,
}
use fastiron_tofu.Config.Numbers.Decimal.{format_uint, all_digits}
use fastiron_tofu.Acl.{
  IpFamily, ipv4_acl, ipv6_acl, OptionalInt, PortMatch, IpRule, IpConfig, Platform, name_check,
}
use fastiron_tofu.Acl.Native.{parse_int}

-- `strconv.FormatInt(number, 10)`
pub format_int : ℤ → Bytes
unfolding format_uint
format_int (pos n) = format_uint n
format_int (negsuc n) = b'-' ∷ format_uint (n + 1)

abbrev is_noncanonical : IpFamily → Bytes → Option ℤ → Bool
is_noncanonical family name none = true
is_noncanonical family name (some n) =
    not (family == ipv4_acl)
    || is_below n 100
    || is_above n 199
    || not (bytes_eq (format_int n) name)

-- What `validateIP` rejects before it looks at a rule.
abbrev pub config_checks : Platform → IpConfig → List (Bool × Error)
config_checks go p =
    (
      not (p.family == ipv4_acl) && not (p.family == ipv6_acl),
      message "IP ACL family must be IPv4 or IPv6",
    )
    ∷ (
      name_check go p.name,
      message
          "ACL name must be a nonempty native token without whitespace, control characters, slashes or dot-path components",
    )
    ∷ (ltb 47 (length p.name), message "IP ACL names must not exceed 47 bytes")
    ∷ (
      all_digits p.name && is_noncanonical p.family p.name (parse_int p.name),
      message
          "numbered extended IPv4 ACLs require canonical numbers from 100 through 199; IPv6 ACLs require names",
    )
    ∷ []

abbrev pub same_opt : OptionalInt → OptionalInt → Bool
same_opt a b = same_int a.value b.value && same_flag a.present b.present

abbrev pub same_ports : PortMatch → PortMatch → Bool
same_ports a b = same_int a.first b.first && same_int a.last b.last && same_flag a.present b.present

-- `==` on rules whose sequences are both 0.
abbrev pub same_rule : IpRule → IpRule → Bool
same_rule a b =
    bytes_eq a.action b.action
    && bytes_eq a.source b.source
    && bytes_eq a.destination b.destination
    && same_opt a.protocol b.protocol
    && same_ports a.source_port b.source_port
    && same_ports a.destination_port b.destination_port
    && same_opt a.dscp b.dscp
    && same_opt a.dscp_mark b.dscp_mark
    && same_opt a.priority b.priority
    && same_flag a.log b.log

abbrev pub is_repeated : IpRule → List IpRule → Bool
is_repeated r [] = false
is_repeated r (q ∷ seen) = same_rule q r || is_repeated r seen

module _ (go : Platform) where
  -- What is wrong with the prefix of an address that is not `any`.
  abbrev is_bad_prefix : IpFamily → Bytes → Option (go.Addr × ℕ) → Bool
  is_bad_prefix family address none = true
  is_bad_prefix family address (some (a, bits)) =
      bits == 0
      || not (bytes_eq (go.prefix_text (go.masked (a, bits))) address)
      || not (same_flag (go.is4 a) (family == ipv4_acl))

  abbrev is_mapped : Option (go.Addr × ℕ) → Bool
  is_mapped none = false
  is_mapped (some (a, bits)) = go.is4_in6 a

  abbrev pub bad_address : IpFamily → Bytes → Bool
  bad_address family address =
      not (bytes_eq address (codes "any")) && is_bad_prefix family address (go.parse_prefix address)

  abbrev pub mapped_address : Bytes → Bool
  mapped_address address =
      not (bytes_eq address (codes "any")) && is_mapped (go.parse_prefix address)

  abbrev pub lacks_transport : IpRule → PortMatch → Bool
  lacks_transport r port =
      port.present
      && (not r.protocol.present
          || not (equals r.protocol.value 6) && not (equals r.protocol.value 17))

  abbrev pub bad_ports : PortMatch → Bool
  bad_ports port =
      port.present
      && (is_below port.first 0 || is_above port.last 65535 || less_int port.last port.first)

  abbrev pub exceeds : OptionalInt → ℕ → Bool
  exceeds field most = field.present && (is_below field.value 0 || is_above field.value most)

  abbrev address_error : ℤ → IpFamily → Error
  address_error sequence family =
      formatted "ACL sequence %d addresses must be any or canonical IPv%d prefixes"
        (to_nat sequence ∷ family ∷ [])

  abbrev mapped_error : Error
  mapped_error =
      message
        "IPv4-mapped IPv6 prefixes are unsupported because native save/reload can discard their rules"

  abbrev transport_error : Error
  transport_error = message "RESTCONF port matches require TCP or UDP"

  abbrev ports_error : Error
  ports_error =
      message "ACL ports must be within 0 through 65535, with range endpoints in ascending order"

  -- The body of the loop over the rules.
  abbrev pub rule_checks : IpFamily → List IpRule → ℤ × IpRule → List (Bool × Error)
  rule_checks family seen (sequence, r) =
      (
        is_below sequence 1 || is_above sequence 65000 || not (same_int sequence r.sequence),
        message "ACL rules require distinct sequence numbers from 1 through 65000",
      )
      ∷ (
        not (bytes_eq r.action (codes "permit")) && not (bytes_eq r.action (codes "deny")),
        message "ACL action must be permit or deny",
      )
      ∷ (r.log && not (family == ipv6_acl), message "RESTCONF rule logging requires an IPv6 ACL")
      ∷ (bad_address family r.source, address_error sequence family)
      ∷ (mapped_address r.source, mapped_error)
      ∷ (bad_address family r.destination, address_error sequence family)
      ∷ (mapped_address r.destination, mapped_error)
      ∷ (
        exceeds r.protocol 254
            || r.protocol.present && family == ipv4_acl && equals r.protocol.value 0,
        message "protocol must be 0 through 254; omit it for an IPv4 all-protocol match",
      )
      ∷ (lacks_transport r r.source_port, transport_error)
      ∷ (bad_ports r.source_port, ports_error)
      ∷ (lacks_transport r r.destination_port, transport_error)
      ∷ (bad_ports r.destination_port, ports_error)
      ∷ (exceeds r.dscp 63, formatted "DSCP match must be 0 through %d" (63 ∷ []))
      ∷ (exceeds r.dscp_mark 63, formatted "DSCP marking must be 0 through %d" (63 ∷ []))
      ∷ (exceeds r.priority 7, formatted "internal priority must be 0 through %d" (7 ∷ []))
      ∷ (
        is_repeated r seen,
        message "RESTCONF cannot represent duplicate IP ACL rules at different sequences",
      )
      ∷ []

  unfoldable pub validate_rules : IpFamily → List IpRule → List (ℤ × IpRule) → Result (Unit {0})
  validate_rules family seen [] = ok tt
  validate_rules family seen (entry ∷ more) =
      reject_any (rule_checks family seen entry) >> validate_rules family (entry.1 ∷ seen) more

  -- `validateIP`
  unfoldable pub validate_ip : IpConfig → Result (Unit {0})
  unfolding validate_rules format_int parse_int bytes_eq has_byte
  validate_ip p = reject_any (config_checks go p) >> validate_rules p.family [] p.rules
