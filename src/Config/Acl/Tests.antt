-- ===== src/Config/Acl/Tests.antt =====
-- Access lists of small documents.
use fastiron_tofu.Prelude.{◌≡◌, refl, true, [], ◌∷◌, map, none, codes, ok, err, quoted, keep, All}
use fastiron_tofu.Config.Command.{Command, Document, empty_document}
use fastiron_tofu.Config.Document.{make_command}
use fastiron_tofu.Config.Syntax.{parse_command}
use fastiron_tofu.Config.Acl.{Acl, acls, acl_of, is_acl_header}
use fastiron_tofu.Config.Acl.Identities.{HasDistinctAcls, acls-identities}

abbrev web_header : Command
web_header = make_command parse_command (codes "ip access-list extended web") [] none 0

abbrev with_web : Document
with_web = record empty_document { commands = web_header ∷ [] }

abbrev web_acl : Acl
web_acl = record {
  id = codes "ip access-list extended web";
  kind = codes "ipv4_extended";
  name = codes "web";
}

web_found : acls with_web ≡ ok (web_acl ∷ [])
unfolding acls make_command parse_command
web_found = refl

acls-identities_example :
    (web_acl ∷ [] ≡ map acl_of (keep is_acl_header with_web.commands))
    × (HasDistinctAcls (web_acl ∷ [])
        × All (λ c. c.valid ≡ true) (keep is_acl_header with_web.commands))
acls-identities_example = acls-identities with_web (web_acl ∷ []) web_found

repeated_refused :
    acls (record with_web { commands = web_header ∷ web_header ∷ [] })
    ≡ err (quoted "duplicate native ACL identity: " (codes "ip access-list extended web"))
unfolding acls make_command parse_command
repeated_refused = refl
