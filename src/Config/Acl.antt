-- ===== src/Config/Acl.antt =====
-- internal/config/acl.go: `ACLs`, the identities of the access lists.
pub mod Identities
mod Tests
use fastiron_tofu.Prelude.{
  ℕ, Bool, true, false, not, ◌&&◌, ◌||◌, List, [], ◌∷◌, ◌++◌, Bytes, Result, ok, err, quoted, ◌>>=◌,
  ◌>>◌, reject_if, ◌==◌, if◌then◌else◌, bytes_eq,
}
use fastiron_tofu.Config.Command.{Command, Document, acl_header, is_top}
use fastiron_tofu.Config.Select.{for_selected}

pub record Acl : Type 0 where
  pub id : Bytes
  pub kind : Bytes
  pub name : Bytes

-- The key of `seen`: an identity without its ID.
abbrev pub same_acl : Acl → Acl → Bool
same_acl a b = bytes_eq a.kind b.kind && bytes_eq a.name b.name

pub is_seen : Acl → List Acl → Bool
unfolding bytes_eq
is_seen a [] = false
is_seen a (b ∷ more) = same_acl a b || is_seen a more

abbrev pub acl_of : Command → Acl
acl_of c = record { id = c.text; kind = c.family; name = c.name }

abbrev pub is_acl_header : Command → Bool
is_acl_header c = is_top c && c.kind == acl_header

pub acl_body : Command → List Acl → Result (List Acl)
unfolding is_seen
acl_body c identities =
    reject_if (not c.valid) "unrecognized native ACL header"
    >> (if is_seen (acl_of c) identities
        then err (quoted "duplicate native ACL identity: " c.text)
        else ok (identities ++ acl_of c ∷ []))

-- `ACLs`
unfoldable pub acls : Document → Result (List Acl)
unfolding acl_body for_selected
acls d = for_selected is_acl_header acl_body d.commands []
