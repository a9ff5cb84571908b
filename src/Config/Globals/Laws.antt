-- ===== src/Config/Globals/Laws.antt =====
-- What the top-level settings of a document are read to be.
use fastiron_tofu.Prelude.{
  ℕ, ◌+◌, ◌≡◌, ◌↔◌, ◌≤◌, refl, Bool, true, false, not, List, [], ◌∷◌, Result, ok, err, message,
  >>=_assoc, String, ◌>>=◌, ◌==◌, if◌then◌else◌, keep, arith, All, length,
}
use fastiron_tofu.Config.Command.{Command, Document}
use fastiron_tofu.Config.Select.{for_selected_lem, body_all}
use fastiron_tofu.Config.Sift.{sift_lem, consume_all, kept_texts, owned_commands}
use fastiron_tofu.Config.Globals.{
  is_lag_header, jumbo, jumbo_role, jumbo_body, lldp, lldp_role, lldp_body, default_vlan_id,
  is_default_vlan, default_vlan_body, has_lag_body, has_lag,
}

-- A setting that may stand once: its default, or what its one valid command says.
abbrev pub once {ℓ} : {A : Type ℓ} → A → (Command → A) → String → List Command → Result A
once absent value problem [] = ok absent
once absent value problem (c ∷ []) = if c.valid then ok (value c) else err (message problem)
once absent value problem (c ∷ more) = err (message problem)

jumbo-once_owned :
    (cs : List Command)
    → consume_all jumbo_body cs false
      ≡ once false (λ _. true) "native jumbo configuration is malformed or repeated" cs
unfolding consume_all jumbo_body
jumbo-once_owned [] = refl
jumbo-once_owned (c ∷ []) = ground arith
jumbo-once_owned (c ∷ d ∷ cs) = ground arith

-- Jumbo is off without a setting and on with one valid top-level setting, beside the text of every
-- other command in order; an invalid or a second setting is an error.
pub jumbo-once :
    (d : Document)
    → jumbo d ≡ (
        once false
          (λ _. true)
          "native jumbo configuration is malformed or repeated"
          (owned_commands jumbo_role 0 d.commands)
        >>= λ b. ok (b, kept_texts jumbo_role 0 d.commands))
unfolding jumbo
jumbo-once d = simp (sift_lem, jumbo-once_owned)

lldp-once_owned :
    (cs : List Command)
    → (consume_all lldp_body cs (true, false) >>= λ r. ok r.0)
      ≡ once true
          (λ c. not c.negated)
          "native global LLDP configuration is malformed or repeated"
          cs
unfolding consume_all lldp_body
lldp-once_owned [] = refl
lldp-once_owned (c ∷ []) = ground arith
lldp-once_owned (c ∷ d ∷ cs) = ground arith

-- LLDP is on without a setting and what its one valid top-level setting says, beside the text of
-- every other command in order; an invalid or a second setting is an error.
pub lldp-once :
    (d : Document)
    → lldp d ≡ (
        once true
          (λ c. not c.negated)
          "native global LLDP configuration is malformed or repeated"
          (owned_commands lldp_role 0 d.commands)
        >>= λ b. ok (b, kept_texts lldp_role 0 d.commands))
unfolding lldp
lldp-once d =
    rw sift_lem (rw (← lldp-once_owned (owned_commands lldp_role 0 d.commands)) (simp >>=_assoc))

-- There is one such setting, valid and in range, or none and the number is 1.
abbrev pub SetsDefault : ℕ → List Command → Type 0
SetsDefault id [] = id ≡ 1
SetsDefault id (c ∷ []) = (c.valid ≡ true) × (c.number ≡ id) × (1 ≤ id) × (id ≤ 4095)
SetsDefault id (c ∷ d ∷ cs) = ⊥

default_vlan_owned_iff :
    (cs : List Command) (id : ℕ)
    → ((body_all default_vlan_body cs (1, false) >>= λ r. ok r.0) ≡ ok id) ↔ SetsDefault id cs
unfolding body_all default_vlan_body
default_vlan_owned_iff [] id = ground arith
default_vlan_owned_iff (c ∷ []) id = ground arith
default_vlan_owned_iff (c ∷ d ∷ cs) id = ground arith

-- DefaultVLAN returns an identity exactly if the document has no such top-level setting and the
-- identity is 1, or has one, which is valid and sets that identity between 1 and 4095.
pub default_vlan_id_iff :
    (d : Document) (id : ℕ)
    → (default_vlan_id d ≡ ok id) ↔ SetsDefault id (keep is_default_vlan d.commands)
unfolding default_vlan_id
default_vlan_id_iff d id = rw for_selected_lem (default_vlan_owned_iff _ id)

-- has_lag
has_lag_owned :
    (id : ℕ) (cs : List Command) (found b : Bool)
    → (body_all (has_lag_body id) cs found ≡ ok b) ↔ (
        All (λ c. (c.valid ≡ true) × (1 ≤ c.number)) cs
        × (length (keep (λ c. c.number == id) cs) + (if found then 1 else 0)
            ≡ (if b then 1 else 0)))
unfolding body_all has_lag_body
has_lag_owned id [] found b = ground arith
has_lag_owned id (c ∷ cs) true b = ground (arith, has_lag_owned id cs true b)
has_lag_owned id (c ∷ cs) false b =
    ground (arith, has_lag_owned id cs true b, has_lag_owned id cs false b)

-- HasLAG returns an answer exactly if the identity is at least 1 and every top-level LAG header is
-- valid with a number of at least 1 and at most one has the identity; the answer says whether one
-- does.
pub has_lag_iff :
    (d : Document) (id : ℕ) (b : Bool)
    → (has_lag d id ≡ ok b) ↔ (
        (1 ≤ id)
        × All (λ c. (c.valid ≡ true) × (1 ≤ c.number)) (keep is_lag_header d.commands)
        × (length (keep (λ c. c.number == id) (keep is_lag_header d.commands))
            ≡ (if b then 1 else 0)))
unfolding has_lag
has_lag_iff d id b =
    rw for_selected_lem (ground (arith, has_lag_owned id (keep is_lag_header d.commands) false b))
