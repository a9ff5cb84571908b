-- ===== src/Acl/References/Found.antt =====
-- What referencesACL finds.
use fastiron_tofu.Prelude.{
  ◌↔◌, ◌≡◌, refl, ◌∙◌, ap, Bool, true, false, ◌||◌, List, [], ◌∷◌, ◌++◌, Bytes, arith, inl, inr,
  Bool-cases, ◌==◌, ==_iff, ◌&&◌, ◌⊎◌,
}
use fastiron_tofu.Acl.{IpFamily}
use fastiron_tofu.Config.Syntax.{join_words}
use fastiron_tofu.Acl.References.{
  references_from, references_acl, refers, pim_after, pim_reference, text_fields,
}
use fastiron_tofu.Acl.References.Phrases.{
  IsPimPhrase, IsIpPhrase, pim_reference-IsPimPhrase, IsPimPhrase-pim_reference, ip_reference_lem,
}
use fastiron_tofu.Acl.References.Context.{
  IsFamily, IsUnder, pim_behind, pim_behind-IsUnder, IsUnder-pim_behind,
}

abbrev RefersFrom : IpFamily → List Bytes → IpFamily → Bytes → Type 0
RefersFrom pim lines family name =
    (before : List Bytes) × ((line : Bytes) × ((after : List Bytes) × ((lines
            ≡ before ++ line ∷ after)
          × (refers (pim_behind pim (before ++ line ∷ [])) (text_fields line) family name ≡ true))))

abbrev pub is_nonempty : List Bytes → Bool
is_nonempty [] = false
is_nonempty (f ∷ fs) = true

references_from-RefersFrom :
    (pim : IpFamily) (lines : List Bytes) (family : IpFamily) (name : Bytes)
    → references_from pim lines family name ≡ true
    → RefersFrom pim lines family name
unfolding references_from
references_from-RefersFrom pim [] family name h = ground arith
references_from-RefersFrom pim (line ∷ more) family name h =
    let next = pim_after pim line (text_fields line) in
    elim (Bool-cases (refers next (text_fields line) family name)) [
      | inl here ↦ ([], (line, (more, (refl, here))))
      | inr away ↦
          let (before, (found, (after, (split, there)))) =
            references_from-RefersFrom next more family name (rw away at h) in
          (line ∷ before, (found, (after, (ap (λ l. line ∷ l) split, there))))
    ]

RefersFrom-references_from :
    (pim : IpFamily) (before : List Bytes) (line : Bytes) (after : List Bytes) (family : IpFamily)
    (name : Bytes)
    → refers (pim_behind pim (before ++ line ∷ [])) (text_fields line) family name ≡ true
    → references_from pim (before ++ line ∷ after) family name ≡ true
unfolding references_from
RefersFrom-references_from pim [] line after family name h = rw h refl
RefersFrom-references_from pim (x ∷ before) line after family name h =
    let rest =
      RefersFrom-references_from (pim_after pim x (text_fields x)) before line after family name
        h in
    or_true (refers (pim_after pim x (text_fields x)) (text_fields x) family name) rest
  where
    or_true : (b : Bool) {c : Bool} → c ≡ true → (b || c) ≡ true
    or_true true h = refl
    or_true false h = h

-- A line refers to the list: by a PIM phrase in a block of the list's family, or by an IP phrase.
abbrev pub IsReference : List Bytes → Bytes → IpFamily → Bytes → Type 0
IsReference before line family name =
    (IsUnder family (before ++ line ∷ []) × IsPimPhrase (text_fields line) name)
    ⊎ ((is_nonempty (text_fields line) ≡ true)
        × IsIpPhrase (join_words (text_fields line)) (text_fields line) family name)

empty_refers : (name : Bytes) → pim_reference [] name ≡ true → ⊥
empty_refers name h = elim (pim_reference-IsPimPhrase [] name h) [
  | inl e ↦ absurd (ground arith)
  | inr (inl e) ↦ absurd (ground arith)
  | inr (inr (inl e)) ↦ absurd (ground arith)
  | inr (inr (inr (inl e))) ↦ absurd (ground arith)
  | inr (inr (inr (inr (x, inl e)))) ↦ absurd (ground arith)
  | inr (inr (inr (inr (x, inr (inl e))))) ↦ absurd (ground arith)
  | inr (inr (inr (inr (x, inr (inr e))))) ↦ absurd (ground arith)
]

refers_iff :
    (pim : IpFamily) (fields : List Bytes) (family : IpFamily) (name : Bytes)
    → (refers pim fields family name ≡ true) ↔ (
        ((pim ≡ family) × IsPimPhrase fields name)
        ⊎ ((is_nonempty fields ≡ true) × IsIpPhrase (join_words fields) fields family name))
refers_iff pim [] family name = (
  (λ h. absurd (ground arith)),
  (λ h. elim h [
    | inl (_, phrase) ↦ absurd (empty_refers name (IsPimPhrase-pim_reference [] name phrase))
    | inr (some_field, _) ↦ absurd (ground arith)
  ]),
)
refers_iff pim (f ∷ fs) family name =
    let ip = ip_reference_lem (join_words (f ∷ fs)) (f ∷ fs) family name in
    (
      (λ h. elim (Bool-cases (pim == family && pim_reference (f ∷ fs) name)) [
        | inl below ↦ inl (
          (==_iff pim family).0 (ground arith),
          pim_reference-IsPimPhrase (f ∷ fs) name (ground arith),
        )
        | inr apart ↦ inr (refl, ip.0 (rw apart at h))
      ]),
      (λ h. elim h [
        | inl (same, phrase) ↦
            let at : (pim == family) ≡ true = (==_iff pim family).1 same in
            rw (at, IsPimPhrase-pim_reference (f ∷ fs) name phrase) refl
        | inr (_, phrase) ↦ or_true (pim == family && pim_reference (f ∷ fs) name) (ip.1 phrase)
      ]),
    )
  where
    or_true : (b : Bool) {c : Bool} → c ≡ true → (b || c) ≡ true
    or_true true h = refl
    or_true false h = h

-- For a list of IPv4 or IPv6, referencesACL holds exactly if some line refers to it, in one of two
-- ways. The line is one of the seven PIM commands that end in the name, and the last line up to it
-- without indentation opens the PIM configuration of the list's family, the default or a VRF's. Or
-- its words, with single blanks between them, start with one of the family's prefixes and the name
-- as a whole word, or are "match", the family, "address" and names with this one among them, of
-- which the first is not "prefix-list".
pub references_acl-IsReference :
    (lines : List Bytes) (family : IpFamily) (name : Bytes)
    → IsFamily family
    → (references_acl lines family name ≡ true) ↔ (
        (before : List Bytes) × ((line : Bytes) × ((after : List Bytes) × ((lines
                ≡ before ++ line ∷ after)
              × IsReference before line family name))))
unfolding references_acl
references_acl-IsReference lines family name known = (
  (λ h.
      let (before, (line, (after, (split, there)))) =
        references_from-RefersFrom 0 lines family name h in
      (
        before,
        (
          line,
          (
            after,
            (
              split,
              (elim ((refers_iff _ _ family name).0 there) [
                | inl (under, phrase) ↦
                    inl (pim_behind-IsUnder family (before ++ line ∷ []) known under, phrase)
                | inr named ↦ inr named
              ]),
            ),
          ),
        ),
      )),
  (λ (before, (line, (after, (split, h)))).
      ap (λ l. references_from 0 l family name) split
      ∙ RefersFrom-references_from 0 before line after family name (
          (refers_iff (pim_behind 0 (before ++ line ∷ [])) (text_fields line) family name).1
            (elim h [
              | inl (under, phrase) ↦
                  inl (IsUnder-pim_behind family (before ++ line ∷ []) under, phrase)
              | inr named ↦ inr named
            ]))),
)
