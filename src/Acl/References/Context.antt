-- ===== src/Acl/References/Context.antt =====
-- The block of `router pim` that a line stands in.
use fastiron_tofu.Prelude.{
  ◌≡◌, refl, sym, ◌∙◌, ap, subst, ◌⊎◌, Bool, true, false, not, ◌||◌, List, [], ◌∷◌, ◌++◌, Bytes,
  codes, arith, inl, inr, Bool-cases, All, bytes_eq, has_prefix,
}
use fastiron_tofu.Config.Syntax.{join_words}
use fastiron_tofu.Acl.{IpFamily, ipv4_acl, ipv6_acl}
use fastiron_tofu.Acl.References.{pim_family, pim_after, is_indented, text_fields}
use fastiron_tofu.Acl.References.Phrases.{is_or_starts}

-- The commands that open the PIM configuration of a family, the default or that of a VRF.
abbrev pub OpensPim : IpFamily → Bytes → Type 0
OpensPim family command =
    ((family ≡ ipv4_acl)
      × ((command ≡ codes "router pim")
          ⊎ ((vrf : Bytes) × (command ≡ codes "router pim vrf " ++ vrf))))
    ⊎ ((family ≡ ipv6_acl)
        × ((command ≡ codes "ipv6 router pim")
            ⊎ ((vrf : Bytes) × (command ≡ codes "ipv6 router pim vrf " ++ vrf))))

abbrev pub IsFamily : IpFamily → Type 0
IsFamily family = (family ≡ ipv4_acl) ⊎ (family ≡ ipv6_acl)

pim_family-OpensPim :
    (family : IpFamily) (command : Bytes)
    → IsFamily family
    → pim_family command ≡ family
    → OpensPim family command
unfolding pim_family
pim_family-OpensPim family command known h =
    elim (Bool-cases
      (bytes_eq command (codes "router pim") || has_prefix (codes "router pim vrf ") command)) [
        | inl four ↦ inl (
          ground arith,
          (is_or_starts (codes "router pim") (codes "router pim vrf ") command).0 four,
        )
        | inr not_four ↦
            elim (Bool-cases (
              bytes_eq command (codes "ipv6 router pim")
              || has_prefix (codes "ipv6 router pim vrf ") command)) [
                | inl six ↦ inr (
                  ground arith,
                  (is_or_starts (codes "ipv6 router pim") (codes "ipv6 router pim vrf ") command).0
                      six,
                )
                | inr not_six ↦ absurd (ground arith)
              ]
      ]

OpensPim-pim_family :
    (family : IpFamily) (command : Bytes) → OpensPim family command → pim_family command ≡ family
unfolding pim_family bytes_eq has_prefix
OpensPim-pim_family family command (inl (four, h)) =
    let opened = (is_or_starts (codes "router pim") (codes "router pim vrf ") command).1 h in
    rw opened (sym four)
OpensPim-pim_family family command (inr (six, inl h)) =
    subst (λ c. pim_family c ≡ family) (sym h) (sym six)
OpensPim-pim_family family command (inr (six, inr (vrf, h))) =
    subst (λ c. pim_family c ≡ family) (sym h) (sym six)

-- A line that leaves the block before it: it has a field, and no blank in front.
abbrev pub starts_block : Bytes → List Bytes → Bool
starts_block line [] = false
starts_block line (f ∷ fs) = not (is_indented line)

abbrev pub is_outer : Bytes → Bool
is_outer line = starts_block line (text_fields line)

-- The last line of these without indentation opens the PIM configuration of a family.
abbrev pub IsUnder : IpFamily → List Bytes → Type 0
IsUnder family lines =
    (before : List Bytes) × ((line : Bytes) × ((after : List Bytes) × ((lines
            ≡ before ++ line ∷ after)
          × ((is_outer line ≡ true)
              × (OpensPim family (join_words (text_fields line))
                  × All (λ l. is_outer l ≡ false) after)))))

-- The PIM family behind some lines.
abbrev pub pim_behind : IpFamily → List Bytes → IpFamily
pim_behind pim [] = pim
pim_behind pim (line ∷ more) = pim_behind (pim_after pim line (text_fields line)) more

pim_after_outer :
    (pim : IpFamily) (line : Bytes) (fields : List Bytes)
    → starts_block line fields ≡ true
    → pim_after pim line fields ≡ pim_family (join_words fields)
pim_after_outer pim line [] h = absurd (ground arith)
pim_after_outer pim line (f ∷ fs) h = ground arith

pim_after_inner :
    (pim : IpFamily) (line : Bytes) (fields : List Bytes)
    → starts_block line fields ≡ false
    → pim_after pim line fields ≡ pim
pim_after_inner pim line [] h = refl
pim_after_inner pim line (f ∷ fs) h = ground arith

pim_behind_inner :
    (pim : IpFamily) (lines : List Bytes)
    → All (λ l. is_outer l ≡ false) lines
    → pim_behind pim lines ≡ pim
pim_behind_inner pim [] h = refl
pim_behind_inner pim (l ∷ lines) (inner, h) =
    ap (λ p. pim_behind p lines) (pim_after_inner pim l (text_fields l) inner)
    ∙ pim_behind_inner pim lines h

pim_behind-append :
    (pim : IpFamily) (before lines : List Bytes)
    → pim_behind pim (before ++ lines) ≡ pim_behind (pim_behind pim before) lines
pim_behind-append pim [] lines = refl
pim_behind-append pim (l ∷ before) lines =
    pim_behind-append (pim_after pim l (text_fields l)) before lines

pub IsUnder-pim_behind :
    (family : IpFamily) (lines : List Bytes) → IsUnder family lines → pim_behind 0 lines ≡ family
IsUnder-pim_behind family lines (before, (line, (after, (split, (outer, (opens, inner)))))) =
    ap (pim_behind 0) split
    ∙ pim_behind-append 0 before (line ∷ after)
    ∙ ap (λ p. pim_behind p after)
        (pim_after_outer (pim_behind 0 before) line (text_fields line) outer)
    ∙ pim_behind_inner (pim_family (join_words (text_fields line))) after inner
    ∙ OpensPim-pim_family family (join_words (text_fields line)) opens

pim_behind-cases :
    (pim family : IpFamily) (lines : List Bytes)
    → IsFamily family
    → pim_behind pim lines ≡ family
    → ((pim ≡ family) × All (λ l. is_outer l ≡ false) lines) ⊎ IsUnder family lines
pim_behind-cases pim family [] known h = inl (h, tt)
pim_behind-cases pim family (l ∷ lines) known h =
    elim (pim_behind-cases (pim_after pim l (text_fields l)) family lines known h) [
      | inr (before, (line, (after, (split, rest)))) ↦
          inr (l ∷ before, (line, (after, (ap (λ ls. l ∷ ls) split, rest))))
      | inl (same, inner) ↦ elim (Bool-cases (is_outer l)) [
        | inl outer ↦ inr (
          [],
          (
            l,
            (
              lines,
              (
                refl,
                (
                  outer,
                  (
                    pim_family-OpensPim family (join_words (text_fields l)) known
                        (sym (pim_after_outer pim l (text_fields l) outer) ∙ same),
                    inner,
                  ),
                ),
              ),
            ),
          ),
        )
        | inr inside ↦
            inl (sym (pim_after_inner pim l (text_fields l) inside) ∙ same, (inside, inner))
      ]
    ]

pub pim_behind-IsUnder :
    (family : IpFamily) (lines : List Bytes)
    → IsFamily family
    → pim_behind 0 lines ≡ family
    → IsUnder family lines
pim_behind-IsUnder family lines known h = elim (pim_behind-cases 0 family lines known h) [
  | inr under ↦ under
  | inl (zero, inner) ↦ absurd (no_family known zero)
]
  where
    no_family : IsFamily family → 0 ≡ family → ⊥
    no_family (inl a) b = omega arith
    no_family (inr a) b = omega arith
