-- ===== src/Config/Lags/Members.antt =====
-- The members of the aggregates that LAGs returns.
use fastiron_tofu.Prelude.{
  ℕ, ◌+◌, ◌≤◌, ◌≡◌, refl, sym, ◌∙◌, ap, subst, true, false, not, ◌||◌, List, [], ◌∷◌, ◌++◌, Bytes,
  Result, ok, ok-injective, ◌>>=◌, >>=-eq-ok, ◌>>◌, reject_if, reject_if-eq-ok, keep, count,
  if◌then◌else◌, arith, ltb, loop, loop_inv, Bool-cases, inl, inr, bytes_eq, bytes_eq_iff, has_text,
}
use fastiron_tofu.Config.Command.{Command, Document}
use fastiron_tofu.Config.Select.{for_selected, for_selected_lem, body_all}
use fastiron_tofu.Config.Globals.{is_lag_header}
use fastiron_tofu.Config.Ports.{PortMap, inventory, resolve_ports}
use fastiron_tofu.Config.Lags.{
  Lag, ClaimState, claim_all, is_member_list, member_body, text_before, insert_text, sort_texts,
  insert_lag, sort_lags, LagsState, is_repeated_lag, lag_block, lags_step, lags,
}

module _ (x : Bytes) where
  -- How often a name is in a list.
  abbrev pub times : List Bytes → ℕ
  times names = count (λ y. bytes_eq y x) names

  -- How often it is a member of the aggregates.
  abbrev pub memberships : List Lag → ℕ
  memberships [] = 0
  memberships (l ∷ ls) = times l.members + memberships ls

  bit_of : List Bytes → ℕ
  bit_of taken = if has_text x taken then 1 else 0

  claim_all-times :
      (names taken after : List Bytes)
      → claim_all names taken ≡ ok after
      → times names + bit_of taken ≡ bit_of after
  unfolding claim_all bit_of has_text
  claim_all-times [] taken after e = omega (arith, ap bit_of (ok-injective e))
  claim_all-times (name ∷ more) taken after e =
      let (_, new, later) =
        >>=-eq-ok (reject_if (has_text name taken) "native LAG member is assigned more than once")
          (λ _. claim_all more (name ∷ taken)) e in
      let free = reject_if-eq-ok (has_text name taken) _ new in
      let rest = claim_all-times more (name ∷ taken) after later in
      elim (Bool-cases (bytes_eq name x)) [
        | inl same ↦
            let missing : has_text x taken ≡ false =
              subst (λ n. has_text n taken ≡ false) ((bytes_eq_iff name x).0 same) free in
            ground (arith, rest, missing, same)
        | inr other ↦ ground (arith, rest, other)
      ]

  insert_text-times : (y : Bytes) (ys : List Bytes) → times (insert_text y ys) ≡ times (y ∷ ys)
  unfolding insert_text
  insert_text-times y [] = refl
  insert_text-times y (z ∷ zs) = elim (Bool-cases (text_before z y)) [
    | inl before ↦ rw before (omega (arith, insert_text-times y zs))
    | inr behind ↦ rw behind refl
  ]

  sort_texts-times : (ys : List Bytes) → times (sort_texts ys) ≡ times ys
  unfolding sort_texts
  sort_texts-times [] = refl
  sort_texts-times (y ∷ ys) =
      insert_text-times y (sort_texts ys) ∙ omega (arith, sort_texts-times ys)

  insert_lag-memberships :
      (l : Lag) (ls : List Lag) → memberships (insert_lag l ls) ≡ memberships (l ∷ ls)
  unfolding insert_lag
  insert_lag-memberships l [] = refl
  insert_lag-memberships l (k ∷ ks) = elim (Bool-cases (ltb k.id l.id)) [
    | inl before ↦ rw before (omega (arith, insert_lag-memberships l ks))
    | inr behind ↦ rw behind refl
  ]

  sort_lags-memberships : (ls : List Lag) → memberships (sort_lags ls) ≡ memberships ls
  unfolding sort_lags
  sort_lags-memberships [] = refl
  sort_lags-memberships (l ∷ ls) =
      insert_lag-memberships l (sort_lags ls) ∙ omega (arith, sort_lags-memberships ls)

  memberships-append : (ls ks : List Lag) → memberships (ls ++ ks) ≡ memberships ls + memberships ks
  memberships-append [] ks = omega arith
  memberships-append (l ∷ ls) ks = omega (arith, memberships-append ls ks)

  -- Before the member list of an aggregate nothing is resolved.
  abbrev Claims : ℕ → ClaimState → Type 0
  Claims start s = (s.seen ≡ false → s.resolved ≡ []) × (times s.resolved + start ≡ bit_of s.taken)

  member_body-Claims :
      (ports : PortMap) (start : ℕ) (c : Command) (s t : ClaimState)
      → Claims start s
      → member_body ports c s ≡ ok t
      → Claims start t
  unfolding member_body
  member_body-Claims ports start c s t (empty, sum) e =
      let (_, first, e1) =
        >>=-eq-ok (reject_if (s.seen || not c.valid) "native LAG members are malformed or repeated")
          (λ _. resolved_at ports c s) e in
      let (resolved, _, e2) = >>=-eq-ok (resolve_ports c ports) (λ names. claimed s names) e1 in
      let (taken, claims, e3) =
        >>=-eq-ok (claim_all resolved s.taken)
          (λ taken. ok (record { seen = true; resolved = resolved; taken = taken })) e2 in
      let unseen : s.seen ≡ false = ground (arith, reject_if-eq-ok _ _ first) in
      let none_yet : times s.resolved ≡ 0 = ap times (empty unseen) in
      subst (Claims start) (ok-injective e3) (
        (λ h. absurd (ground arith)),
        omega (arith, claim_all-times resolved s.taken taken claims, sum, none_yet),
      )
    where
      claimed : ClaimState → List Bytes → Result ClaimState
      claimed s names = claim_all names s.taken >>= λ taken.
          ok (record { seen = true; resolved = names; taken = taken })

      resolved_at : PortMap → Command → ClaimState → Result ClaimState
      resolved_at ports c s = resolve_ports c ports >>= λ names. claimed s names

  body_all-Claims :
      (ports : PortMap) (start : ℕ) (cs : List Command) (s t : ClaimState)
      → Claims start s
      → body_all (member_body ports) cs s ≡ ok t
      → Claims start t
  unfolding body_all
  body_all-Claims ports start [] s t h e = subst (Claims start) (ok-injective e) h
  body_all-Claims ports start (c ∷ cs) s t h e =
      let (u, stepped, later) =
        >>=-eq-ok (member_body ports c s) (λ u. body_all (member_body ports) cs u) e in
      body_all-Claims ports start cs u t (member_body-Claims ports start c s u h stepped) later

  abbrev Holds : LagsState → Type 0
  Holds s = memberships s.lags ≡ bit_of s.taken

  lag_block-Holds :
      (d : Document) (ports : PortMap) (i : ℕ) (c : Command) (s t : LagsState)
      → Holds s
      → lag_block d ports i c s ≡ ok t
      → Holds t
  unfolding lag_block
  lag_block-Holds d ports i c s t h e =
      let (_, _, e1) =
        >>=-eq-ok (reject_if (not c.valid || ltb c.number 1) "native LAG header is malformed")
          (λ _. checked d ports i c s) e in
      let (_, _, e2) =
        >>=-eq-ok (reject_if (is_repeated_lag c s.lags) "native LAG repeats an identity or name")
          (λ _. filled d ports i c s) e1 in
      let start : ClaimState = record { seen = false; resolved = []; taken = s.taken } in
      let (m, looped, e3) =
        >>=-eq-ok (for_selected (is_member_list i) (member_body ports) d.commands start)
          (λ m. ok (with_lag c s m)) e2 in
      let (_, sum) =
        body_all-Claims ports (bit_of s.taken) (keep (is_member_list i) d.commands) start m
          ((λ _. refl), omega arith)
          (sym (for_selected_lem (is_member_list i) (member_body ports) d.commands start)
            ∙ looped) in
      subst Holds (ok-injective e3) (
        omega (
          arith,
          memberships-append s.lags (new_lag c m ∷ []),
          sort_texts-times m.resolved,
          h,
          sum,
        ))
    where
      new_lag : Command → ClaimState → Lag
      new_lag c m = record {
        id = c.number;
        name = c.name;
        mode = c.family;
        members = sort_texts m.resolved;
      }

      with_lag : Command → LagsState → ClaimState → LagsState
      with_lag c s m = record { lags = s.lags ++ new_lag c m ∷ []; taken = m.taken }

      filled : Document → PortMap → ℕ → Command → LagsState → Result LagsState
      filled d ports i c s =
          for_selected (is_member_list i) (member_body ports) d.commands
            (record { seen = false; resolved = []; taken = s.taken })
          >>= λ m. ok (with_lag c s m)

      checked : Document → PortMap → ℕ → Command → LagsState → Result LagsState
      checked d ports i c s =
          reject_if (is_repeated_lag c s.lags) "native LAG repeats an identity or name"
          >> filled d ports i c s

  lags_step-Holds :
      (d : Document) (ports : PortMap) (i : ℕ) (c : Command) (cs : List Command) (s t : LagsState)
      → Holds s
      → lags_step d ports i c s ≡ ok t
      → Holds t
  unfolding lags_step
  lags_step-Holds d ports i c cs s t h e = elim (Bool-cases (is_lag_header c)) [
    | inl header ↦ lag_block-Holds d ports i c s t h (rw header at e)
    | inr other ↦ subst Holds (ok-injective (rw other at e)) h
  ]

  abbrev no_lags : LagsState
  no_lags = record { lags = []; taken = [] }

  no_lags-Holds : Holds no_lags
  unfolding bit_of has_text
  no_lags-Holds = refl

  bit_of-le : (taken : List Bytes) → bit_of taken ≤ 1
  unfolding bit_of
  bit_of-le taken = ground arith

  -- In the aggregates that LAGs returns, a name is a member at most once: no port belongs to two
  -- aggregates, and none is listed twice in one.
  pub lags-memberships :
      (d : Document) (names : List Bytes) (found : List Lag)
      → lags d names ≡ ok found
      → memberships found ≤ 1
  unfolding lags
  lags-memberships d names found e =
      let (ports, _, e1) =
        >>=-eq-ok
          (inventory "LAG inventory contains an invalid Ethernet identity"
            "LAG inventory repeats an Ethernet identity" names [])
          (λ ports. walked d ports) e in
      let (s, looped, e2) =
        >>=-eq-ok (loop (lags_step d ports) 0 d.commands no_lags) (λ s. ok (sort_lags s.lags)) e1 in
      let (_, held) =
        loop_inv (λ i cs s. Holds s) (lags_step d ports) (lags_step-Holds d ports) 0 d.commands
          no_lags no_lags-Holds looped in
      let sorted : memberships found ≡ memberships s.lags =
        ap memberships (sym (ok-injective e2)) ∙ sort_lags-memberships s.lags in
      omega (arith, sorted, held, bit_of-le s.taken)
    where
      walked : Document → PortMap → Result (List Lag)
      walked d ports = loop (lags_step d ports) 0 d.commands no_lags >>= λ s. ok (sort_lags s.lags)
