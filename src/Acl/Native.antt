-- ===== src/Acl/Native.antt =====
-- internal/features/acl/ip_native.go: an IP access list as the device prints it.
use fastiron_tofu.Prelude.{
  ℕ, ℤ, pos, neg, Bool, true, false, not, ◌&&◌, ◌||◌, List, [], ◌∷◌, Option, none, some, Bytes,
  codes, String, Result, ok, err, message, quoted, ◌>>=◌, ◌>>◌, reject_if, ◌==◌, ltb, leb,
  if◌then◌else◌, bytes_eq, has_byte,
}
use fastiron_tofu.Config.Numbers.{decimal_onto, i64_limit}
use fastiron_tofu.Acl.{
  IpFamily, ipv4_acl, ipv6_acl, OptionalInt, PortMatch, no_ports, no_int, IpRule, Platform,
  standard_source,
}
use fastiron_tofu.Acl.Protocols.{protocol_numbers}
use fastiron_tofu.Acl.Services.{service_ports}

abbrev pub unsigned : Bytes → Option ℕ
unsigned [] = none
unsigned (c ∷ cs) = decimal_onto 0 (c ∷ cs)

abbrev positive : Option ℕ → Option ℤ
positive none = none
positive (some n) = if ltb n i64_limit then some (pos n) else none

abbrev negative : Option ℕ → Option ℤ
negative none = none
negative (some n) = if leb n i64_limit then some (neg n) else none

-- `strconv.ParseInt(text, 10, 64)`, nothing for an error.
unfoldable pub parse_int : Bytes → Option ℤ
unfolding decimal_onto
parse_int [] = none
parse_int (c ∷ cs) =
    if c == b'-'
    then negative (unsigned cs)
    else if c == b'+'
    then positive (unsigned cs)
    else positive (unsigned (c ∷ cs))

-- A look into a map with text keys.
unfoldable pub find_number : Bytes → List (String × ℕ) → Option ℕ
unfolding bytes_eq
find_number value [] = none
find_number value ((name, number) ∷ more) =
    if bytes_eq (codes name) value then some number else find_number value more

abbrev parsed_number : String → Bytes → Option ℤ → Result ℤ
parsed_number problem value none = err (quoted problem value)
parsed_number problem value (some n) = ok n

abbrev pub known_or_parsed : String → Bytes → Option ℕ → Result ℤ
known_or_parsed problem value (some n) = ok (pos n)
known_or_parsed problem value none = parsed_number problem value (parse_int value)

-- `nativeService`
unfoldable pub native_service : Bytes → Result ℤ
unfolding find_number parse_int
native_service value =
    known_or_parsed "unsupported native ACL service" value (find_number value service_ports)

-- `nativeProtocol`
unfoldable pub native_protocol : Bytes → IpFamily → Result OptionalInt
unfolding find_number parse_int bytes_eq
native_protocol value family =
    if family == ipv4_acl && bytes_eq value (codes "ip")
      || family == ipv6_acl && bytes_eq value (codes "ipv6")
    then ok no_int
    else if bytes_eq value (codes "icmp") && family == ipv6_acl
    then ok (record { value = pos 58; present = true })
    else known_or_parsed "unsupported native ACL protocol" value
        (find_number value protocol_numbers)
      >>= λ n. ok (record { value = n; present = true })

-- `nativePort`
unfoldable pub native_port : List Bytes → Result (PortMatch × List Bytes)
unfolding native_service bytes_eq
native_port [] = ok (no_ports, [])
native_port (f ∷ []) =
    if bytes_eq f (codes "eq") || bytes_eq f (codes "range")
    then err (message "incomplete native ACL port expression")
    else ok (no_ports, f ∷ [])
native_port (f ∷ a ∷ []) =
    if bytes_eq f (codes "eq")
    then native_service a >>= (λ n. ok (record { first = n; last = n; present = true }, []))
    else if bytes_eq f (codes "range")
    then err (message "incomplete native ACL port expression")
    else ok (no_ports, f ∷ a ∷ [])
native_port (f ∷ a ∷ b ∷ more) =
    if bytes_eq f (codes "eq")
    then native_service a >>= (λ n. ok (record { first = n; last = n; present = true }, b ∷ more))
    else if bytes_eq f (codes "range")
    then (do
      n ← native_service a
      m ← native_service b
      ok (record { first = n; last = m; present = true }, more))
    else ok (no_ports, f ∷ a ∷ b ∷ more)

abbrev option_value : OptionalInt → Option ℤ → Result OptionalInt
option_value target none =
    if target.present
    then err (message "duplicate native ACL option")
    else err (message "invalid native ACL marking")
option_value target (some n) =
    if target.present
    then err (message "duplicate native ACL option")
    else ok (record { value = n; present = true })

-- One marking or match option with its value.
unfoldable pub native_option : Bytes → Bytes → IpRule → Result IpRule
unfolding parse_int bytes_eq
native_option f v r =
    if bytes_eq f (codes "dscp-matching")
    then option_value r.dscp (parse_int v) >>= (λ o. ok (record r { dscp = o }))
    else if bytes_eq f (codes "dscp-marking")
    then option_value r.dscp_mark (parse_int v) >>= (λ o. ok (record r { dscp_mark = o }))
    else if bytes_eq f (codes "internal-priority-marking")
    then option_value r.priority (parse_int v) >>= (λ o. ok (record r { priority = o }))
    else err (quoted "unsupported native ACL option" f)

abbrev pub native_log : IpFamily → IpRule → Result IpRule
native_log family r =
    reject_if (not (family == ipv6_acl) || r.log) "unsupported or duplicate native ACL logging"
    >> ok (record r { log = true })

-- The loop over the options.
unfoldable pub native_options : IpFamily → List Bytes → IpRule → Result IpRule
unfolding native_option bytes_eq
native_options family [] r = ok r
native_options family (f ∷ []) r =
    if bytes_eq f (codes "log")
    then native_log family r
    else err (message "unsupported native ACL option")
native_options family (f ∷ v ∷ more) r =
    if bytes_eq f (codes "log")
    then native_log family r >>= native_options family (v ∷ more)
    else native_option f v r >>= native_options family more

module _ (go : Platform) where
  abbrev host6 : Option go.Addr → List Bytes → Result (Bytes × List Bytes)
  host6 none rest = err (message "invalid native IPv6 ACL host")
  host6 (some a) rest =
      if not (go.is6 a) || go.is4_in6 a || go.has_zone a
      then err (message "invalid native IPv6 ACL host")
      else ok (go.prefix_text (a, 128), rest)

  abbrev prefix6 : Option (go.Addr × ℕ) → List Bytes → Result (Bytes × List Bytes)
  prefix6 none rest = err (message "invalid native IPv6 ACL prefix")
  prefix6 (some (a, bits)) rest =
      if not (go.is6 a) || go.is4_in6 a
      then err (message "invalid native IPv6 ACL prefix")
      else if bits == 0
      then ok (codes "any", rest)
      else ok (go.prefix_text (go.masked (a, bits)), rest)

  abbrev takes_two : IpFamily → Bytes → Bool
  takes_two family f = bytes_eq f (codes "host") || family == ipv4_acl && not (has_byte b'/' f)

  -- `nativeAddress`
  unfoldable pub native_address : List Bytes → IpFamily → Result (Bytes × List Bytes)
  unfolding standard_source bytes_eq has_byte
  native_address [] family = err (message "missing native ACL address")
  native_address (f ∷ []) family =
      if bytes_eq f (codes "any")
      then ok (codes "any", [])
      else if takes_two family f
      then err (message "incomplete native ACL address")
      else if family == ipv4_acl
      then standard_source go (f ∷ []) >>= (λ a. ok (a, []))
      else prefix6 (go.parse_prefix f) []
  native_address (f ∷ g ∷ more) family =
      if bytes_eq f (codes "any")
      then ok (codes "any", g ∷ more)
      else if family == ipv4_acl
      then (if takes_two family f
          then standard_source go (f ∷ g ∷ []) >>= (λ a. ok (a, more))
          else standard_source go (f ∷ []) >>= (λ a. ok (a, g ∷ more)))
      else if bytes_eq f (codes "host")
      then host6 (go.parse_addr g) more
      else prefix6 (go.parse_prefix f) (g ∷ more)

  abbrev native_fields : Bytes → Bytes → Bytes → List Bytes → IpFamily → Option ℤ → Result IpRule
  native_fields s action protocol rest family none = err (message "invalid native ACL sequence")
  native_fields s action protocol rest family (some sequence) = do
    number ← native_protocol protocol family
    (source, rest) ← native_address rest family
    (source_port, rest) ← native_port rest
    (destination, rest) ← native_address rest family
    (destination_port, rest) ← native_port rest
    native_options family rest (record {
      sequence = sequence;
      action = action;
      source = source;
      destination = destination;
      protocol = number;
      source_port = source_port;
      destination_port = destination_port;
      dscp = no_int;
      dscp_mark = no_int;
      priority = no_int;
      log = false;
    })

  -- `nativeIPRule`
  unfoldable pub native_ip_rule : List Bytes → IpFamily → Result IpRule
  unfolding native_protocol native_address native_port native_options parse_int bytes_eq
  native_ip_rule (f ∷ s ∷ action ∷ protocol ∷ x ∷ y ∷ more) family =
      if bytes_eq f (codes "sequence")
      then native_fields s action protocol (x ∷ y ∷ more) family (parse_int s)
      else err (message "unsupported native IP ACL rule")
  native_ip_rule _ family = err (message "unsupported native IP ACL rule")
