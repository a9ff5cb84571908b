-- ===== src/Config/Acl/Identities.antt =====
-- The answer of ACLs, by the headers of the document.
use fastiron_tofu.Prelude.{
  ◌≡◌, sym, ◌∙◌, ap, subst, true, false, not, List, [], ◌∷◌, ◌++◌, map, append-nil, append_assoc,
  ok, ok-injective, >>=-eq-ok, reject_if, reject_if-eq-ok, keep, All, All-append, ok-ne-err, arith,
  Bool-cases, inl, inr,
}
use fastiron_tofu.Config.Command.{Command, Document}
use fastiron_tofu.Config.Select.{for_selected_lem, body_all}
use fastiron_tofu.Config.Acl.{Acl, acl_of, acl_body, acls, is_acl_header, is_seen, same_acl}

-- No two identities share their family and name.
abbrev pub HasDistinctAcls : List Acl → Type 0
HasDistinctAcls [] = Unit {0}
HasDistinctAcls (a ∷ more) = All (λ b. same_acl b a ≡ false) more × HasDistinctAcls more

acl_body-eq-ok :
    (c : Command) (before after : List Acl)
    → acl_body c before ≡ ok after
    → (c.valid ≡ true) × ((is_seen (acl_of c) before ≡ false) × (after ≡ before ++ acl_of c ∷ []))
unfolding acl_body
acl_body-eq-ok c before after e =
    let (_, fits, rest) =
      >>=-eq-ok (reject_if (not c.valid) "unrecognized native ACL header") _ e in
    elim (Bool-cases (is_seen (acl_of c) before)) [
      | inl seen ↦ absurd (ok-ne-err (sym (rw seen at rest)))
      | inr unseen ↦ (
        ground (arith, reject_if-eq-ok _ _ fits),
        (unseen, sym (ok-injective (rw unseen at rest))),
      )
    ]

is_seen-All :
    (a : Acl) (before : List Acl)
    → is_seen a before ≡ false
    → All (λ b. same_acl a b ≡ false) before
unfolding is_seen
is_seen-All a [] h = tt
is_seen-All a (b ∷ more) h = (ground arith, is_seen-All a more (ground arith))

HasDistinctAcls-snoc :
    (before : List Acl) (a : Acl)
    → HasDistinctAcls before
    → All (λ b. same_acl a b ≡ false) before
    → HasDistinctAcls (before ++ a ∷ [])
HasDistinctAcls-snoc [] a h new = (tt, tt)
HasDistinctAcls-snoc (b ∷ before) a (hb, h) (new_b, new) = (
  All-append (λ x. same_acl x b ≡ false) before (a ∷ []) hb (new_b, tt),
  HasDistinctAcls-snoc before a h new,
)

body_all-identities :
    (cs : List Command) (before after : List Acl)
    → HasDistinctAcls before
    → body_all acl_body cs before ≡ ok after
    → (after ≡ before ++ map acl_of cs) × (HasDistinctAcls after × All (λ c. c.valid ≡ true) cs)
unfolding body_all
body_all-identities [] before after h e =
    (sym (ok-injective e) ∙ sym (append-nil before), (subst HasDistinctAcls (ok-injective e) h, tt))
body_all-identities (c ∷ cs) before after h e =
    let (t, stepped, later) = >>=-eq-ok (acl_body c before) (λ t. body_all acl_body cs t) e in
    let (valid, (unseen, added)) = acl_body-eq-ok c before t stepped in
    let distinct =
      subst HasDistinctAcls (sym added)
        (HasDistinctAcls-snoc before (acl_of c) h (is_seen-All (acl_of c) before unseen)) in
    let (all, (apart, valids)) = body_all-identities cs t after distinct later in
    (
      all
          ∙ (ap (λ l. l ++ map acl_of cs) added
              ∙ append_assoc before (acl_of c ∷ []) (map acl_of cs)),
      (apart, (valid, valids)),
    )

-- The access lists that ACLs returns are those of the top-level headers in their order, with the
-- text, family and name of each; all of these headers are valid, and no two lists share their
-- family and name.
pub acls-identities :
    (d : Document) (found : List Acl)
    → acls d ≡ ok found
    → (found ≡ map acl_of (keep is_acl_header d.commands))
      × (HasDistinctAcls found × All (λ c. c.valid ≡ true) (keep is_acl_header d.commands))
unfolding acls
acls-identities d found e =
    body_all-identities (keep is_acl_header d.commands) [] found tt
      (sym (for_selected_lem is_acl_header acl_body d.commands []) ∙ e)
