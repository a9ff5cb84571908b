-- ===== src/Acl/References/Phrases.antt =====
-- The commands that refer to an access list, spelled out.
use fastiron_tofu.Prelude.{
  ◌≡◌, ◌↔◌, refl, sym, ◌∙◌, ap, subst, ◌⊎◌, Bool, true, false, ◌||◌, List, [], ◌∷◌, ◌++◌, Bytes,
  codes, String, arith, ◌==◌, inl, inr, Bool-cases, if◌then◌else◌, bytes_eq, bytes_eq_iff,
  bytes_eq_refl, has_prefix, has_text,
}
use fastiron_tofu.Acl.{IpFamily, ipv6_acl}
use fastiron_tofu.Acl.References.{pim_reference, prefixes, has_named, matches_address, ip_reference}

-- A command below `router pim` that names a list.
abbrev pub IsPimPhrase : List Bytes → Bytes → Type 0
IsPimPhrase fields name =
    (fields ≡ codes "jp-policy" ∷ name ∷ [])
    ⊎ ((fields ≡ codes "accept-register" ∷ name ∷ [])
        ⊎ ((fields ≡ codes "ssm-enable" ∷ codes "range" ∷ name ∷ [])
            ⊎ ((fields ≡ codes "slow-path-forwarding" ∷ codes "filter" ∷ name ∷ [])
                ⊎ ((x : Bytes) × ((fields ≡ codes "jp-policy" ∷ x ∷ name ∷ [])
                      ⊎ ((fields ≡ codes "rp-address" ∷ x ∷ name ∷ [])
                          ⊎ (fields ≡ codes "anycast-rp" ∷ x ∷ name ∷ [])))))))

same_of : {a b : Bytes} → bytes_eq a b ≡ true → a ≡ b
same_of {a} {b} h = (bytes_eq_iff a b).0 h

pair_eq : {f g a b : Bytes} → bytes_eq f a ≡ true → bytes_eq g b ≡ true → f ∷ g ∷ [] ≡ a ∷ b ∷ []
pair_eq {f} {g} {a} {b} h k = ap (λ x. x ∷ g ∷ []) (same_of h) ∙ ap (λ y. a ∷ y ∷ []) (same_of k)

triple_eq :
    {f g k a b c : Bytes}
    → bytes_eq f a ≡ true
    → g ≡ b
    → bytes_eq k c ≡ true
    → f ∷ g ∷ k ∷ [] ≡ a ∷ b ∷ c ∷ []
triple_eq {f} {g} {k} {a} {b} {c} h i j =
    ap (λ x. x ∷ g ∷ k ∷ []) (same_of h)
    ∙ ap (λ y. a ∷ y ∷ k ∷ []) i
    ∙ ap (λ z. a ∷ b ∷ z ∷ []) (same_of j)

two_fields :
    (f g name : Bytes) → pim_reference (f ∷ g ∷ []) name ≡ true → IsPimPhrase (f ∷ g ∷ []) name
unfolding pim_reference
two_fields f g name h = elim (Bool-cases (bytes_eq f (codes "jp-policy"))) [
  | inl policy ↦ inl (pair_eq policy (ground arith))
  | inr not1 ↦ elim (Bool-cases (bytes_eq f (codes "accept-register"))) [
    | inl register ↦ inr (inl (pair_eq register (ground arith)))
    | inr not2 ↦ absurd (ground arith)
  ]
]

three_fields :
    (f g k name : Bytes)
    → pim_reference (f ∷ g ∷ k ∷ []) name ≡ true
    → IsPimPhrase (f ∷ g ∷ k ∷ []) name
unfolding pim_reference
three_fields f g k name h = elim (Bool-cases (bytes_eq f (codes "jp-policy"))) [
  | inl policy ↦ inr (inr (inr (inr (g, inl (triple_eq policy refl (ground arith))))))
  | inr not3 ↦ elim (Bool-cases (bytes_eq f (codes "rp-address"))) [
    | inl rp ↦ inr (inr (inr (inr (g, inr (inl (triple_eq rp refl (ground arith)))))))
    | inr not4 ↦ elim (Bool-cases (bytes_eq f (codes "anycast-rp"))) [
      | inl rp ↦ inr (inr (inr (inr (g, inr (inr (triple_eq rp refl (ground arith)))))))
      | inr not5 ↦ elim (Bool-cases (bytes_eq f (codes "ssm-enable"))) [
        | inl ssm ↦ inr (inr (inl (triple_eq ssm (same_of (ground arith)) (ground arith))))
        | inr not6 ↦ elim (Bool-cases (bytes_eq f (codes "slow-path-forwarding"))) [
          | inl slow ↦
              inr (inr (inr (inl (triple_eq slow (same_of (ground arith)) (ground arith)))))
          | inr not7 ↦ absurd (ground arith)
        ]
      ]
    ]
  ]
]

pub pim_reference-IsPimPhrase :
    (fields : List Bytes) (name : Bytes)
    → pim_reference fields name ≡ true
    → IsPimPhrase fields name
unfolding pim_reference
pim_reference-IsPimPhrase [] name h = absurd (ground arith)
pim_reference-IsPimPhrase (f ∷ []) name h = absurd (ground arith)
pim_reference-IsPimPhrase (f ∷ g ∷ []) name h = two_fields f g name h
pim_reference-IsPimPhrase (f ∷ g ∷ k ∷ []) name h = three_fields f g k name h
pim_reference-IsPimPhrase (f ∷ g ∷ k ∷ l ∷ more) name h = absurd (ground arith)

pub IsPimPhrase-pim_reference :
    (fields : List Bytes) (name : Bytes)
    → IsPimPhrase fields name
    → pim_reference fields name ≡ true
unfolding pim_reference bytes_eq
IsPimPhrase-pim_reference fields name phrase = elim phrase [
  | inl e ↦ at e (rw (bytes_eq_refl name) refl)
  | inr (inl e) ↦ at e (rw (bytes_eq_refl name) refl)
  | inr (inr (inl e)) ↦ at e (rw (bytes_eq_refl name) refl)
  | inr (inr (inr (inl e))) ↦ at e (rw (bytes_eq_refl name) refl)
  | inr (inr (inr (inr (x, inl e)))) ↦ at e (rw (bytes_eq_refl name) refl)
  | inr (inr (inr (inr (x, inr (inl e))))) ↦ at e (rw (bytes_eq_refl name) refl)
  | inr (inr (inr (inr (x, inr (inr e))))) ↦ at e (rw (bytes_eq_refl name) refl)
]
  where
    at :
        {form : List Bytes}
        → fields ≡ form
        → pim_reference form name ≡ true
        → pim_reference fields name ≡ true
    at e h = subst (λ l. pim_reference l name ≡ true) (sym e) h

has_prefix-append : (p s : Bytes) → has_prefix p s ≡ true → (rest : Bytes) × (s ≡ p ++ rest)
unfolding has_prefix
has_prefix-append [] s h = (s, refl)
has_prefix-append (p ∷ ps) [] h = absurd (ground arith)
has_prefix-append (p ∷ ps) (c ∷ cs) h =
    let (rest, e) = has_prefix-append ps cs (ground arith) in
    let same : c ≡ p = ground arith in (rest, ap (λ l. c ∷ l) e ∙ ap (λ x. x ∷ ps ++ rest) same)

append-has_prefix : (p rest : Bytes) → has_prefix p (p ++ rest) ≡ true
unfolding has_prefix
append-has_prefix [] rest = refl
append-has_prefix (p ∷ ps) rest = ground (arith, append-has_prefix ps rest)

-- A text that is `p`, or that starts with `q`.
pub is_or_starts :
    (p q s : Bytes)
    → ((bytes_eq s p || has_prefix q s) ≡ true) ↔ ((s ≡ p) ⊎ ((rest : Bytes) × (s ≡ q ++ rest)))
is_or_starts p q s = (
  (λ h. elim (Bool-cases (bytes_eq s p)) [
    | inl whole ↦ inl (same_of whole)
    | inr not8 ↦ inr (has_prefix-append q s (ground arith))
  ]),
  (λ h. elim h [
    | inl whole ↦ rw ((bytes_eq_iff s p).1 whole) refl
    | inr (rest, e) ↦
        or_true (bytes_eq s p)
          (subst (λ t. has_prefix q t ≡ true) (sym e) (append-has_prefix q rest))
  ]),
)
  where
    or_true : (b : Bool) {c : Bool} → c ≡ true → (b || c) ≡ true
    or_true true h = refl
    or_true false h = h

abbrev pub AnyOf {ℓ} : {A : Type ℓ} → (A → Type 0) → List A → Type 0
AnyOf P [] = ⊥
AnyOf P (x ∷ xs) = P x ⊎ AnyOf P xs

-- A command that starts with a prefix and the list's name as a whole word.
abbrev pub IsNamedBehind : Bytes → Bytes → String → Type 0
IsNamedBehind command name prefix =
    (command ≡ codes prefix ++ name)
    ⊎ ((rest : Bytes) × (command ≡ (codes prefix ++ (name ++ b' ' ∷ [])) ++ rest))

has_named-AnyOf :
    (command name : Bytes) (ps : List String)
    → (has_named command name ps ≡ true) ↔ AnyOf (IsNamedBehind command name) ps
has_named-AnyOf command name [] = ground arith
has_named-AnyOf command name (p ∷ ps) = ground (
  arith,
  is_or_starts (codes p ++ name) (codes p ++ (name ++ b' ' ∷ [])) command,
  has_named-AnyOf command name ps,
)

abbrev pub family_word : IpFamily → Bytes
family_word family = if family == ipv6_acl then codes "ipv6" else codes "ip"

-- A command of any block that names a list: behind one of the prefixes, or in a match of addresses.
abbrev pub IsIpPhrase : Bytes → List Bytes → IpFamily → Bytes → Type 0
IsIpPhrase command fields family name =
    AnyOf (IsNamedBehind command name) (prefixes family)
    ⊎ ((k : Bytes) × ((more : List Bytes) × ((fields
              ≡ codes "match" ∷ family_word family ∷ codes "address" ∷ k ∷ more)
            × ((bytes_eq k (codes "prefix-list") ≡ false) × (has_text name (k ∷ more) ≡ true)))))

matches_IsMatch :
    (fields : List Bytes) (family : IpFamily) (name : Bytes)
    → matches_address fields family name ≡ true
    → (k : Bytes) × ((more : List Bytes) × ((fields
            ≡ codes "match" ∷ family_word family ∷ codes "address" ∷ k ∷ more)
          × ((bytes_eq k (codes "prefix-list") ≡ false) × (has_text name (k ∷ more) ≡ true))))
matches_IsMatch [] family name h = absurd (ground arith)
matches_IsMatch (f ∷ []) family name h = absurd (ground arith)
matches_IsMatch (f ∷ g ∷ []) family name h = absurd (ground arith)
matches_IsMatch (f ∷ g ∷ k ∷ []) family name h = absurd (ground arith)
matches_IsMatch (f ∷ g ∷ k ∷ l ∷ more) family name h =
    let first : bytes_eq f (codes "match") ≡ true = ground arith in
    let second : bytes_eq g (family_word family) ≡ true = ground arith in
    let third : bytes_eq k (codes "address") ≡ true = ground arith in
    (
      l,
      (
        more,
        (
          ap (λ x. x ∷ g ∷ k ∷ l ∷ more) (same_of first)
              ∙ ap (λ x. codes "match" ∷ x ∷ k ∷ l ∷ more) (same_of second)
              ∙ ap (λ x. codes "match" ∷ family_word family ∷ x ∷ l ∷ more) (same_of third),
          (ground arith, ground arith),
        ),
      ),
    )

pub ip_reference_lem :
    (command : Bytes) (fields : List Bytes) (family : IpFamily) (name : Bytes)
    → (ip_reference command fields family name ≡ true) ↔ IsIpPhrase command fields family name
unfolding ip_reference
ip_reference_lem command fields family name = (
  (λ h. elim (Bool-cases (has_named command name (prefixes family))) [
    | inl named ↦ inl ((has_named-AnyOf command name (prefixes family)).0 named)
    | inr unnamed ↦ inr (matches_IsMatch fields family name (rw unnamed at h))
  ]),
  (λ h. elim h [
    | inl named ↦ rw ((has_named-AnyOf command name (prefixes family)).1 named) refl
    | inr (k, (more, (e, (other, known)))) ↦ or_true (has_named command name (prefixes family)) (
        subst (λ l. matches_address l family name ≡ true) (sym e)
          (rw (bytes_eq_refl (family_word family), other, known) refl))
  ]),
)
  where
    or_true : (b : Bool) {c : Bool} → c ≡ true → (b || c) ≡ true
    or_true true h = refl
    or_true false h = h
