-- ===== src/Acl.antt =====
-- internal/features/acl: IP access lists, their rules and what they are read with. ip.go (the types
-- and `header`), access_group.go (`validateACLName`) and standard.go (`standardSource`). A number is
-- an integer, a map from sequences to rules is a list of pairs, and `Platform` has the functions of
-- net, net/netip and unicode that the code calls.
pub mod Protocols
pub mod Services
pub mod Native
pub mod Validate
pub mod Configuration
pub mod References
mod Tests
use fastiron_tofu.Prelude.{
  ◌-◌, ℕ, ℤ, pos, Bool, true, false, not, ◌&&◌, ◌||◌, List, [], ◌∷◌, ◌++◌, ◌-◌, Option, none, some,
  Bytes, codes, has_byte, Result, ok, err, message, ◌>>=◌, ◌>>◌, reject_if, ◌==◌, ltb,
  if◌then◌else◌, bytes_eq,
}

-- `ipFamily`
abbrev pub IpFamily : Type 0
IpFamily = ℕ

abbrev pub ipv4_acl : IpFamily
ipv4_acl = 4

abbrev pub ipv6_acl : IpFamily
ipv6_acl = 6

pub record OptionalInt : Type 0 where
  pub value : ℤ
  pub present : Bool

abbrev pub no_int : OptionalInt
no_int = record { value = pos 0; present = false }

pub record PortMatch : Type 0 where
  pub first : ℤ
  pub last : ℤ
  pub present : Bool

abbrev pub no_ports : PortMatch
no_ports = record { first = pos 0; last = pos 0; present = false }

pub record IpRule : Type 0 where
  pub sequence : ℤ
  pub action : Bytes
  pub source : Bytes
  pub destination : Bytes
  pub protocol : OptionalInt
  pub source_port : PortMatch
  pub destination_port : PortMatch
  pub dscp : OptionalInt
  pub dscp_mark : OptionalInt
  pub priority : OptionalInt
  pub log : Bool

pub record IpConfig : Type 0 where
  pub family : IpFamily
  pub name : Bytes
  pub rules : List (ℤ × IpRule)

-- `header`
abbrev pub header : IpFamily → Bytes → Bytes
header family name =
    if family == ipv4_acl
    then codes "ip access-list extended " ++ name
    else codes "ipv6 access-list " ++ name

-- net/netip, net.IPMask.Size on four bytes, and the search for a space or a control character.
pub record Platform : Type 1 where
  pub Addr : Type 0
  pub parse_addr : Bytes → Option Addr
  pub parse_prefix : Bytes → Option (Addr × ℕ)
  pub is4 : Addr → Bool
  pub is6 : Addr → Bool
  pub is4_in6 : Addr → Bool
  pub has_zone : Addr → Bool
  pub masked : Addr × ℕ → Addr × ℕ
  pub prefix_text : Addr × ℕ → Bytes
  pub as4 : Addr → List ℕ
  pub mask_size : List ℕ → ℕ × ℕ
  pub has_space_or_control : Bytes → Bool

-- `validateACLName`
abbrev pub name_check : Platform → Bytes → Bool
name_check go name =
    bytes_eq name []
    || bytes_eq name (codes ".")
    || bytes_eq name (codes "..")
    || has_byte b'/' name
    || go.has_space_or_control name

-- The complement of a byte.
abbrev pub complements : List ℕ → List ℕ
complements [] = []
complements (o ∷ more) = (255 - o) ∷ complements more

module _ (go : Platform) where
  abbrev host_source : Option go.Addr → Result Bytes
  host_source none = err (message "invalid native ACL host address")
  host_source (some a) =
      if go.is4 a
      then ok (go.prefix_text (a, 32))
      else err (message "invalid native ACL host address")

  abbrev prefix_source : Option (go.Addr × ℕ) → Result Bytes
  prefix_source none = err (message "unsupported native ACL source expression")
  prefix_source (some (a, bits)) =
      if not (go.is4 a)
      then err (message "unsupported native ACL source expression")
      else if bits == 0
      then ok (codes "any")
      else ok (go.prefix_text (go.masked (a, bits)))

  abbrev masked_source : go.Addr → ℕ × ℕ → Result Bytes
  masked_source a (bits, size) =
      if not (size == 32)
      then err (message "noncontiguous ACL wildcard masks are not represented by RESTCONF prefixes")
      else if bits == 0
      then ok (codes "any")
      else ok (go.prefix_text (go.masked (a, bits)))

  abbrev wildcard_source : Option go.Addr → Option go.Addr → Result Bytes
  wildcard_source none wildcard = err (message "invalid native ACL source address")
  wildcard_source (some a) none =
      if go.is4 a
      then err (message "invalid native ACL wildcard mask")
      else err (message "invalid native ACL source address")
  wildcard_source (some a) (some w) = do
    reject_if (not (go.is4 a)) "invalid native ACL source address"
    reject_if (not (go.is4 w)) "invalid native ACL wildcard mask"
    masked_source a (go.mask_size (complements (go.as4 w)))

  -- `standardSource`
  unfoldable pub standard_source : List Bytes → Result Bytes
  unfolding bytes_eq
  standard_source (f ∷ []) =
      if bytes_eq f (codes "any") then ok (codes "any") else prefix_source (go.parse_prefix f)
  standard_source (f ∷ g ∷ []) =
      if bytes_eq f (codes "host")
      then host_source (go.parse_addr g)
      else wildcard_source (go.parse_addr f) (go.parse_addr g)
  standard_source _ = err (message "standard ACL contains unsupported source options")
