-- ===== src/Acl/Tests.antt =====
-- Access lists that the model reads, accepts and refuses, on a small stand-in for net/netip.
use fastiron_tofu.Prelude.{
  inl, ◌++◌, ◌↔◌, ◌≡◌, refl, ℕ, pos, true, false, List, [], ◌∷◌, Option, none, some, Bytes, codes,
  ok, err, message, length, ◌≤◌, All, ◌⊎◌,
}
use fastiron_tofu.Config.Command.{Command, Document, no_parse}
use fastiron_tofu.Acl.{IpRule, IpConfig, Platform, ipv4_acl, ipv6_acl, no_ports, no_int}
use fastiron_tofu.Acl.Native.{find_number, native_ip_rule}
use fastiron_tofu.Acl.Validate.{validate_ip}
use fastiron_tofu.Acl.Validate.Facts.{IsRule}
use fastiron_tofu.Acl.Validate.Bounds.{HasNewRules, validate_ip-IsRule}
use fastiron_tofu.Acl.Configuration.{native_ip}
use fastiron_tofu.Acl.Configuration.Sources.{IsAdopted, native_ip-IsAdopted}
use fastiron_tofu.Acl.Services.{service_ports}
use fastiron_tofu.Acl.References.{references_acl}
use fastiron_tofu.Acl.References.Found.{IsReference, references_acl-IsReference}

-- Every text is an address, and the prefix of it has 24 bits.
abbrev toy : Platform
toy = record {
  Addr = Bytes;
  parse_addr = λ a. some a;
  parse_prefix = λ a. some (a, 24);
  is4 = λ a. true;
  is6 = λ a. false;
  is4_in6 = λ a. false;
  has_zone = λ a. false;
  masked = λ p. p;
  prefix_text = λ p. p.0;
  as4 = λ a. 0 ∷ 0 ∷ 0 ∷ 255 ∷ [];
  mask_size = λ m. (24, 32);
  has_space_or_control = λ a. false;
}

abbrev line : Bytes → List Bytes → Option ℕ → Command
line text fields parent = record {
  text = text;
  fields = fields;
  parent = parent;
  indent = 0;
  parsed = no_parse;
}

abbrev web_rule : List Bytes
web_rule =
    codes "sequence"
    ∷ codes "10"
    ∷ codes "permit"
    ∷ codes "tcp"
    ∷ codes "any"
    ∷ codes "10.0.0.0/24"
    ∷ codes "range"
    ∷ codes "http"
    ∷ codes "ssl"
    ∷ codes "dscp-matching"
    ∷ codes "8"
    ∷ []

abbrev web_document : Document
web_document = record {
  commands =
      line (codes "ip access-list extended web") (codes "ip" ∷ []) none
      ∷ line (codes " sequence 10 permit") web_rule (some 0)
      ∷ line (codes "end") (codes "end" ∷ []) none
      ∷ [];
  complete = true;
  started = true;
  stack = [];
  banner = 0;
}

abbrev read_rule : IpRule
read_rule = record {
  sequence = pos 10;
  action = codes "permit";
  source = codes "any";
  destination = codes "10.0.0.0/24";
  protocol = record { value = pos 6; present = true };
  source_port = no_ports;
  destination_port = record { first = pos 80; last = pos 443; present = true };
  dscp = record { value = pos 8; present = true };
  dscp_mark = no_int;
  priority = no_int;
  log = false;
}

abbrev web : IpConfig
web = record { family = ipv4_acl; name = codes "web"; rules = (pos 10, read_rule) ∷ [] }

web_rule_read : native_ip_rule toy web_rule ipv4_acl ≡ ok read_rule
unfolding native_ip_rule
web_rule_read = refl

web_read : native_ip toy ipv4_acl (codes "web") web_document ≡ ok (some web, codes "end" ∷ [])
unfolding native_ip native_ip_rule
web_read = refl

native_ip-IsAdopted_example :
    IsAdopted toy ipv4_acl (codes "web") web_document web (codes "end" ∷ [])
native_ip-IsAdopted_example =
    native_ip-IsAdopted toy ipv4_acl (codes "web") web_document web (codes "end" ∷ []) web_read

web_valid : validate_ip toy web ≡ ok tt
unfolding validate_ip
web_valid = refl

validate_ip-IsRule_example :
    ((web.family ≡ ipv4_acl) ⊎ (web.family ≡ ipv6_acl))
    × ((length web.name ≤ 47) × (All (IsRule web.family) web.rules × HasNewRules toy [] web.rules))
validate_ip-IsRule_example = validate_ip-IsRule toy web web_valid

log_refused :
    validate_ip toy (record web { rules = (pos 10, record read_rule { log = true }) ∷ [] })
    ≡ err (message "RESTCONF rule logging requires an IPv6 ACL")
unfolding validate_ip
log_refused = refl

http_found : find_number (codes "http") service_ports ≡ some 80
unfolding find_number
http_found = refl

pim_lines_refer :
    references_acl
      (codes "router pim" ∷ codes " rp-address 10.0.0.1 web" ∷ [])
      ipv4_acl
      (codes "web")
    ≡ true
unfolding references_acl
pim_lines_refer = refl

references_acl-IsReference_example :
    (references_acl
        (codes "router pim" ∷ codes " rp-address 10.0.0.1 web" ∷ [])
        ipv4_acl
        (codes "web")
      ≡ true)
    ↔ ((before : List Bytes) × ((line : Bytes) × ((after : List Bytes) × ((codes "router pim"
                  ∷ codes " rp-address 10.0.0.1 web"
                  ∷ []
                ≡ before ++ line ∷ after)
              × IsReference before line ipv4_acl (codes "web")))))
references_acl-IsReference_example =
    references_acl-IsReference (codes "router pim" ∷ codes " rp-address 10.0.0.1 web" ∷ []) ipv4_acl
      (codes "web") (inl refl)

other_family_is_free :
    references_acl
      (codes "ipv6 router pim" ∷ codes " rp-address 1::1 web" ∷ [])
      ipv4_acl
      (codes "web")
    ≡ false
unfolding references_acl
other_family_is_free = refl
