-- ===== src/Acl/Configuration.antt =====
-- internal/features/acl/ip_native.go: `nativeIP`, one access list in a document.
pub mod Sections
pub mod Sources
use fastiron_tofu.Prelude.{
  ℕ, ℤ, same_int, Bool, true, false, not, ◌&&◌, ◌||◌, List, [], ◌∷◌, ◌++◌, Option, none, some,
  Bytes, codes, Result, ok, err, Error, message, named, ◌>>=◌, ◌>>◌, reject_if, ◌==◌, if◌then◌else◌,
  bytes_eq, trim_space, trim_left, trim_right, is_none, loop,
}
use fastiron_tofu.Config.Command.{Command, Document, is_top}
use fastiron_tofu.Acl.{IpFamily, ipv4_acl, IpRule, IpConfig, header, Platform}
use fastiron_tofu.Acl.Native.{native_ip_rule}
use fastiron_tofu.Acl.Validate.{validate_ip}

-- `current`, `unowned` and `active`.
pub record Reading : Type 0 where
  pub current : Option IpConfig
  pub unowned : List Bytes
  pub active : Bool

abbrev pub nothing_read : Reading
nothing_read = record { current = none; unowned = []; active = false }

abbrev pub has_sequence : ℤ → List (ℤ × IpRule) → Bool
has_sequence n [] = false
has_sequence n ((m, r) ∷ more) = same_int m n || has_sequence n more

abbrev pub add_rule : IpRule → IpConfig → Result IpConfig
add_rule r p =
    reject_if (has_sequence r.sequence p.rules) "duplicate native ACL sequence"
    >> ok (record p { rules = p.rules ++ (r.sequence, r) ∷ [] })

-- A command that is no rule goes to `unowned`.
abbrev pub unowned_line : Command → Reading → Reading
unowned_line c s = record s { unowned = s.unowned ++ c.text ∷ [] }

module _ (go : Platform) (family : IpFamily) (name : Bytes) where
  abbrev pub opens : Command → Bool
  opens c = bytes_eq c.text (header family name)

  unfoldable pub top_line : Command → Reading → Result Reading
  unfolding bytes_eq
  top_line c s =
      reject_if (family == ipv4_acl && bytes_eq c.text (codes "ip access-list standard " ++ name))
        "ACL name belongs to a standard IPv4 ACL"
      >> (if opens c
          then reject_if (not (is_none s.current)) "duplicate native IP ACL"
            >> ok (record s {
              current = some (record { family = family; name = name; rules = [] });
              active = true;
            })
          else ok (unowned_line c (record s { active = false })))

  abbrev in_acl : Error → Error
  in_acl e = named "ACL" name e

  -- An active list is the current one, so there is one to write to.
  abbrev pub rule_stored : Reading → IpRule → Option IpConfig → Result Reading
  rule_stored s r none = ok s
  rule_stored s r (some p) = add_rule r p >>= λ p. ok (record s { current = some p })

  abbrev pub rule_read : Reading → Result IpRule → Result Reading
  rule_read s (err e) = err (in_acl e)
  rule_read s (ok r) = rule_stored s r s.current

  unfoldable pub rule_line : Command → Reading → Result Reading
  unfolding native_ip_rule
  rule_line c s = rule_read s (native_ip_rule go c.fields family)

  abbrev pub is_passed_over : Command → List Bytes → Bool
  is_passed_over c [] = true
  is_passed_over c (f ∷ fs) = bytes_eq (trim_space c.text) (codes "!")

  unfoldable pub native_step : ℕ → Command → Reading → Result Reading
  unfolding top_line rule_line trim_left trim_right bytes_eq
  native_step i c s =
      if is_passed_over c c.fields
      then ok s
      else if is_top c
      then top_line c s
      else if s.active
      then rule_line c s
      else ok (unowned_line c s)

  abbrev pub validated : Reading → Option IpConfig → Result (Option IpConfig × List Bytes)
  validated s none = ok (none, s.unowned)
  validated s (some p) = validate_ip go p >> ok (some p, s.unowned)

  -- `nativeIP`
  unfoldable pub native_ip : Document → Result (Option IpConfig × List Bytes)
  unfolding native_step validate_ip loop
  native_ip d = loop native_step 0 d.commands nothing_read >>= λ s. validated s s.current
