-- ===== src/Config/Ve/Rows.antt =====
-- What VE reads, by the commands and whether each stands in the interface's stanza.
use fastiron_tofu.Prelude.{
  ℕ, ◌+◌, ◌≤◌, ◌≡◌, refl, sym, ◌∙◌, ap, subst, Bool, true, false, not, ◌&&◌, ◌||◌, List, [], ◌∷◌,
  ◌++◌, append_assoc, append-nil, Bytes, Option, some, Result, ok, ok-injective, ◌>>=◌, >>=-eq-ok,
  reject_if, loop, count, if◌then◌else◌, is_none, same_place, arith, Bool-cases, inl, inr,
}
use fastiron_tofu.Config.Command.{Command, Document}
use fastiron_tofu.Config.Interface.{interface_header}
use fastiron_tofu.Config.Ve.{
  Ve, VeState, inside_now, is_name, is_disable, take_name, keep_child, child_step, kept_child,
  has_ranges, ve_step, ve_start, read_ve,
}

abbrev pub Row : Type 0
Row = Bool × Command

-- Every command but the header, with whether the last top-level command up to it is the header.
abbrev pub rows : Option ℕ → ℕ → Bool → List Command → List Row
rows header i inside [] = []
rows header i inside (c ∷ cs) =
    let now = inside_now header i c inside in
    let rest = rows header (i + 1) now cs in
    if same_place (some i) header then rest else (now, c) ∷ rest

abbrev pub bit : Bool → ℕ
bit b = if b then 1 else 0

module _ (header : Option ℕ) where
  abbrev pub names : Row → Bool
  names (inside, c) = is_name header inside c

  abbrev pub disables : Row → Bool
  disables (inside, c) = not (names (inside, c)) && is_disable header inside c

  abbrev pub name_in : Bytes → List Row → Bytes
  name_in found [] = found
  name_in found (r ∷ rs) = name_in (if names r then r.1.name else found) rs

  abbrev pub other_texts : List Row → List Bytes
  other_texts [] = []
  other_texts (r ∷ rs) = if names r then other_texts rs else r.1.text ∷ other_texts rs

  abbrev pub any_child : List Row → Bool
  any_child [] = false
  any_child (r ∷ rs) = not (names r) && r.0 || any_child rs

  -- The state behind `rs`, from the state before.
  abbrev Reads : List Row → VeState → VeState → Type 0
  Reads rs s t =
      (t.ve.exists ≡ s.ve.exists)
      × ((t.ve.port_name ≡ name_in s.ve.port_name rs)
          × ((bit t.named ≡ bit s.named + count names rs)
              × ((bit (not t.ve.enabled) ≡ bit (not s.ve.enabled) + count disables rs)
                  × ((t.ve.has_children ≡ (s.ve.has_children || any_child rs))
                      × (t.ve.remaining ≡ s.ve.remaining ++ other_texts rs)))))

  disabled_once :
      (b on : Bool)
      → (b && not on) ≡ false
      → bit (not (on && not b)) ≡ bit (not on) + ((if b then 1 else 0) + 0)
  disabled_once b on once = ground arith

  take_name-Reads :
      (inside : Bool) (c : Command) (s t : VeState)
      → is_name header inside c ≡ true
      → take_name c inside s ≡ ok t
      → (t.inside ≡ inside) × Reads ((inside, c) ∷ []) s t
  unfolding take_name
  take_name-Reads inside c s t at e =
      let (u, fresh, made) =
        >>=-eq-ok (reject_if (s.named || not c.valid) "native VE port name is missing or repeated")
          (λ _.
            ok
              (record s { ve = record s.ve { port_name = c.name }; inside = inside; named = true }))
          e in
      let first : s.named ≡ false = ground arith in
      let same = ok-injective made in
      subst (λ t. (t.inside ≡ inside) × Reads ((inside, c) ∷ []) s t) same
        (rw at (
          refl,
          (
            refl,
            (refl, (rw first refl, (omega arith, (ground arith, sym (append-nil s.ve.remaining))))),
          ),
        ))

  keep_child-Reads :
      (inside : Bool) (c : Command) (s t : VeState)
      → is_name header inside c ≡ false
      → keep_child (is_disable header inside c) c inside s ≡ ok t
      → (t.inside ≡ inside) × Reads ((inside, c) ∷ []) s t
  unfolding keep_child
  keep_child-Reads inside c s t at e =
      let (u, fits, made) =
        >>=-eq-ok
          (reject_if
            (is_disable header inside c
              && (not s.ve.enabled || not c.valid || has_ranges c.port_ranges))
            "native VE administrative setting is malformed or repeated")
          (λ _. ok (kept_child (is_disable header inside c) c inside s)) e in
      let once : (is_disable header inside c && not s.ve.enabled) ≡ false = ground arith in
      let same = ok-injective made in
      subst (λ t. (t.inside ≡ inside) × Reads ((inside, c) ∷ []) s t) same
        (rw at (
          refl,
          (
            refl,
            (
              refl,
              (
                omega arith,
                (
                  disabled_once (is_disable header inside c) s.ve.enabled once,
                  (ground arith, refl),
                ),
              ),
            ),
          ),
        ))

  child_step-Reads :
      (inside : Bool) (c : Command) (s t : VeState)
      → child_step header inside c s ≡ ok t
      → (t.inside ≡ inside) × Reads ((inside, c) ∷ []) s t
  unfolding child_step
  child_step-Reads inside c s t e = elim (Bool-cases (is_name header inside c)) [
    | inl name ↦ take_name-Reads inside c s t name (rw name at e)
    | inr child ↦ keep_child-Reads inside c s t child (rw child at e)
  ]

  ve_step-cases :
      (i : ℕ) (c : Command) (s : VeState)
      → ve_step header i c s ≡ (
          if same_place (some i) header
          then ok (record s { inside = inside_now header i c s.inside })
          else child_step header (inside_now header i c s.inside) c s)
  unfolding ve_step
  ve_step-cases i c s = refl

  or_step : (a b c : Bool) → ((a || (b || false)) || c) ≡ (a || (b || c))
  or_step a b c = ground arith

  text_step :
      (name : Bool) (before rest : List Bytes) (x : Bytes)
      → (before ++ (if name then [] else x ∷ [])) ++ rest
        ≡ before ++ (if name then rest else x ∷ rest)
  text_step true before rest x = rw (append-nil before) refl
  text_step false before rest x = append_assoc before (x ∷ []) rest

  Reads-cons :
      (r : Row) (rs : List Row) (s t u : VeState)
      → Reads (r ∷ []) s t
      → Reads rs t u
      → Reads (r ∷ rs) s u
  Reads-cons r rs s t u (exists, (name, (named, (on, (children, texts)))))
        (exists', (name', (named', (on', (children', texts'))))) =
      (
        exists' ∙ exists,
        (
          rw (← name) name',
          (
            omega (arith, named, named'),
            (
              omega (arith, on, on'),
              (
                children'
                    ∙ (ap (λ b. b || any_child rs) children
                        ∙ or_step s.ve.has_children (not (names r) && r.0) (any_child rs)),
                texts'
                    ∙ (ap (λ x. x ++ other_texts rs) texts
                        ∙ text_step (names r) s.ve.remaining (other_texts rs) r.1.text),
              ),
            ),
          ),
        ),
      )

  chosen :
      {b : Bool} (x y : Result VeState) {t : VeState}
      → b ≡ true
      → (if b then x else y) ≡ ok t
      → x ≡ ok t
  chosen x y at e = rw at at e

  refused :
      {b : Bool} (x y : Result VeState) {t : VeState}
      → b ≡ false
      → (if b then x else y) ≡ ok t
      → y ≡ ok t
  refused x y at e = rw at at e

  -- The header changes only where the loop stands.
  from_header :
      (i : ℕ) (c : Command) (cs : List Command) (s t u : VeState)
      → record s { inside = inside_now header i c s.inside } ≡ t
      → Reads (rows header (i + 1) t.inside cs) t u
      → Reads (rows header (i + 1) (inside_now header i c s.inside) cs) s u
  from_header i c cs s t u passed after =
      subst (λ t. Reads (rows header (i + 1) t.inside cs) t u) (sym passed) after

  loop-Reads :
      (i : ℕ) (cs : List Command) (s u : VeState)
      → loop (ve_step header) i cs s ≡ ok u
      → Reads (rows header i s.inside cs) s u
  unfolding loop
  loop-Reads i [] s u e =
      subst (Reads [] s) (ok-injective e) (
        refl,
        (refl, (omega arith, (omega arith, (ground arith, sym (append-nil s.ve.remaining))))),
      )
  loop-Reads i (c ∷ cs) s u e =
      let (t, stepped, later) =
        >>=-eq-ok (ve_step header i c s) (λ t. loop (ve_step header) (i + 1) cs t) e in
      let now = inside_now header i c s.inside in
      let after = loop-Reads (i + 1) cs t u later in
      elim (Bool-cases (same_place (some i) header)) [
        | inl at ↦
            let passed = ok-injective (
              chosen (ok (record s { inside = now })) (child_step header now c s) at
                (sym (ve_step-cases i c s) ∙ stepped)) in
            subst
              (λ b.
                Reads
                  (if b then rows header (i + 1) now cs else (now, c) ∷ rows header (i + 1) now cs)
                  s u)
              (sym at) (from_header i c cs s t u passed after)
        | inr other ↦
            let (inside, one) = child_step-Reads now c s t (
              refused (ok (record s { inside = now })) (child_step header now c s) other
                (sym (ve_step-cases i c s) ∙ stepped)) in
            subst
              (λ b.
                Reads
                  (if b then rows header (i + 1) now cs else (now, c) ∷ rows header (i + 1) now cs)
                  s u)
              (sym other)
              (Reads-cons (now, c) (rows header (i + 1) now cs) s t u one
                (subst (λ b. Reads (rows header (i + 1) b cs) t u) inside after))
      ]

at_most_named : (b : Bool) (n : ℕ) → bit b ≡ 0 + n → n ≤ 1
at_most_named b n e = ground arith

-- The answer of VE, by the rows of the document.
abbrev pub StatesVe : Document → Bytes → Ve → Type 0
StatesVe d name ve =
    (header : Option ℕ) × ((interface_header d name ≡ ok header)
      × ((ve.exists ≡ not (is_none header))
          × ((ve.port_name ≡ name_in header [] (rows header 0 false d.commands))
              × ((count (names header) (rows header 0 false d.commands) ≤ 1)
                  × ((bit (not ve.enabled)
                        ≡ count (disables header) (rows header 0 false d.commands))
                      × ((ve.has_children ≡ any_child header (rows header 0 false d.commands))
                          × (ve.remaining
                              ≡ other_texts header (rows header 0 false d.commands))))))))

-- An answer of VE says whether the interface has a header and holds the name of its port-name
-- command, empty for none; there is at most one such command, the interface is off exactly if one
-- disable command stands below the header and never has two, it has children exactly if its stanza
-- holds a command other than the port name, and the remaining text is that of every command but
-- the header and the port name, in order.
pub read_ve-StatesVe :
    (d : Document) (name : Bytes) (ve : Ve) → read_ve d name ≡ ok ve → StatesVe d name ve
unfolding read_ve
read_ve-StatesVe d name ve e =
    let (header, at, looped) =
      >>=-eq-ok (interface_header d name)
        (λ h. loop (ve_step h) 0 d.commands (ve_start h) >>= λ s. ok s.ve) e in
    let (s, read, result) =
      >>=-eq-ok (loop (ve_step header) 0 d.commands (ve_start header)) (λ s. ok s.ve) looped in
    let (exists, (found, (named, (on, (children, texts))))) =
      loop-Reads header 0 d.commands (ve_start header) s read in
    subst (StatesVe d name) (ok-injective result) (
      header,
      (
        at,
        (exists, (found, (at_most_named s.named _ named, (omega (arith, on), (children, texts))))),
      ),
    )
