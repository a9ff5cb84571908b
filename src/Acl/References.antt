-- ===== src/Acl/References.antt =====
-- internal/features/acl/references.go: the commands that refer to an access list.
pub mod Phrases
pub mod Context
pub mod Found
use fastiron_tofu.Prelude.{
  ℕ, Bool, true, false, not, ◌&&◌, ◌||◌, List, [], ◌∷◌, ◌++◌, Option, none, some, Bytes, codes,
  String, ◌==◌, leb, if◌then◌else◌, bytes_eq, has_prefix, has_text, is_ascii_space, length,
}
use fastiron_tofu.Config.Syntax.{join_words}
use fastiron_tofu.Acl.{IpFamily, ipv4_acl, ipv6_acl}

-- One more byte in front of the first field.
abbrev onto_first : ℕ → List Bytes → List Bytes
onto_first c [] = (c ∷ []) ∷ []
onto_first c (f ∷ fs) = (c ∷ f) ∷ fs

-- `strings.Fields`, on ASCII: the fields, where a field that starts the text is open if the first
-- byte is no space.
pub text_fields : Bytes → List Bytes
text_fields [] = []
text_fields (c ∷ []) = if is_ascii_space c then [] else (c ∷ []) ∷ []
text_fields (c ∷ d ∷ rest) =
    let fields = text_fields (d ∷ rest) in
    if is_ascii_space c
    then fields
    else if is_ascii_space d
    then (c ∷ []) ∷ fields
    else onto_first c fields

abbrev pub last_is : Bytes → List Bytes → Bool
last_is name [] = false
last_is name (f ∷ []) = bytes_eq f name
last_is name (f ∷ g ∷ fs) = last_is name (g ∷ fs)

abbrev pub is_text : String → Bytes → Bool
is_text word f = bytes_eq f (codes word)

abbrev second_is : String → List Bytes → Bool
second_is word (f ∷ g ∷ fs) = is_text word g
second_is word _ = false

abbrev pim_form : List Bytes → Bool
pim_form [] = false
pim_form (f ∷ fs) =
    let n = length (f ∷ fs) in
    if is_text "jp-policy" f
    then n == 2 || n == 3
    else if is_text "rp-address" f || is_text "anycast-rp" f
    then n == 3
    else if is_text "accept-register" f
    then n == 2
    else if is_text "ssm-enable" f
    then n == 3 && second_is "range" (f ∷ fs)
    else if is_text "slow-path-forwarding" f
    then n == 3 && second_is "filter" (f ∷ fs)
    else false

-- `pimReference`
pub pim_reference : List Bytes → Bytes → Bool
unfolding bytes_eq
pim_reference fields name = leb 2 (length fields) && last_is name fields && pim_form fields

abbrev pub prefixes : IpFamily → List String
prefixes family =
    if family == ipv6_acl
    then "ipv6 access-group " ∷ "ipv6 access-class " ∷ "ipv6 traffic-filter "
      ∷ "ipv6 mld access-group " ∷ "ipv6 multicast-boundary " ∷ "ipv6 pim neighbor-filter " ∷ []
    else "ip access-group " ∷ "ip access-class " ∷ "access-class " ∷ "ssh access-group "
      ∷ "telnet access-group " ∷ "web access-group " ∷ "ip igmp access-group "
      ∷ "ip multicast-boundary " ∷ "ip pim neighbor-filter " ∷ []

abbrev pub names_list : Bytes → Bytes → String → Bool
names_list command name prefix =
    bytes_eq command (codes prefix ++ name)
    || has_prefix (codes prefix ++ (name ++ b' ' ∷ [])) command

abbrev pub has_named : Bytes → Bytes → List String → Bool
has_named command name [] = false
has_named command name (p ∷ more) = names_list command name p || has_named command name more

abbrev pub matches_address : List Bytes → IpFamily → Bytes → Bool
matches_address (f ∷ g ∷ h ∷ k ∷ more) family name =
    is_text "match" f
    && bytes_eq g (if family == ipv6_acl then codes "ipv6" else codes "ip")
    && is_text "address" h
    && not (is_text "prefix-list" k)
    && has_text name (k ∷ more)
matches_address _ family name = false

-- `ipReference`
pub ip_reference : Bytes → List Bytes → IpFamily → Bytes → Bool
unfolding bytes_eq has_prefix has_text
ip_reference command fields family name =
    has_named command name (prefixes family) || matches_address fields family name

-- The family that a top-level command gives to the PIM commands below it, 0 for none.
pub pim_family : Bytes → IpFamily
unfolding bytes_eq has_prefix
pim_family command =
    if is_text "router pim" command || has_prefix (codes "router pim vrf ") command
    then ipv4_acl
    else if is_text "ipv6 router pim" command || has_prefix (codes "ipv6 router pim vrf ") command
    then ipv6_acl
    else 0

abbrev pub is_indented : Bytes → Bool
is_indented [] = false
is_indented (c ∷ rest) = c == b' ' || c == b'\t'

abbrev pub pim_after : IpFamily → Bytes → List Bytes → IpFamily
pim_after pim line [] = pim
pim_after pim line (f ∷ fs) = if is_indented line then pim else pim_family (join_words (f ∷ fs))

abbrev pub refers : IpFamily → List Bytes → IpFamily → Bytes → Bool
refers pim [] family name = false
refers pim (f ∷ fs) family name =
    pim == family && pim_reference (f ∷ fs) name
    || ip_reference (join_words (f ∷ fs)) (f ∷ fs) family name

-- The loop of `referencesACL`, from a PIM family on.
unfoldable pub references_from : IpFamily → List Bytes → IpFamily → Bytes → Bool
unfolding text_fields pim_reference ip_reference pim_family join_words
references_from pim [] family name = false
references_from pim (line ∷ more) family name =
    let fields = text_fields line in
    let pim' = pim_after pim line fields in
    refers pim' fields family name || references_from pim' more family name

-- `referencesACL`
unfoldable pub references_acl : List Bytes → IpFamily → Bytes → Bool
unfolding references_from
references_acl lines family name = references_from 0 lines family name
