-- ===== src/Config/Globals.antt =====
-- internal/config: settings that stand at the top level of a document. jumbo.go, lldp.go, vlan.go,
-- `HasLAG` of lag.go, `VLANs` of igmp.go and `SymmetricFlowControl` of interface.go.
pub mod Laws
pub mod Vlans
use fastiron_tofu.Prelude.{
  ℕ, ◌+◌, ◌≡◌, Bool, true, false, not, ◌&&◌, ◌||◌, List, [], ◌∷◌, ◌++◌, Bytes, Option, none, some,
  Result, ok, err, message, ◌>>=◌, ◌>>◌, reject_if, loop, ltb, ◌==◌, if◌then◌else◌,
}
use fastiron_tofu.Config.Command.{
  Command, Document, is_top, jumbo_mode, lldp_run, default_vlan, lag_header, vlan_header,
  symmetric_flow_control,
}
use fastiron_tofu.Config.Select.{for_selected}
use fastiron_tofu.Config.Sift.{Role, skipped, kept, owned, sift}

pub jumbo_role : ℕ → Command → Role
jumbo_role i c = if not (is_top c) || not (c.kind == jumbo_mode) then kept else owned

pub jumbo_body : Command → Bool → Result Bool
jumbo_body c enabled = do
  reject_if (enabled || not c.valid) "native jumbo configuration is malformed or repeated"
  ok true

-- `Jumbo`: the setting, and the text of every unowned command.
unfoldable pub jumbo : Document → Result (Bool × List Bytes)
unfolding jumbo_role jumbo_body
jumbo d = sift jumbo_role jumbo_body d.commands false

pub lldp_role : ℕ → Command → Role
lldp_role i c = if not (is_top c) || not (c.kind == lldp_run) then kept else owned

-- The state is `enabled, seen`.
pub lldp_body : Command → Bool × Bool → Result (Bool × Bool)
lldp_body c (enabled, seen) = do
  reject_if (seen || not c.valid) "native global LLDP configuration is malformed or repeated"
  ok (not c.negated, true)

unfoldable pub lldp : Document → Result (Bool × List Bytes)
unfolding lldp_role lldp_body
lldp d = sift lldp_role lldp_body d.commands (true, false) >>= λ r. ok (r.0.0, r.1)

pub is_default_vlan : Command → Bool
is_default_vlan c = is_top c && c.kind == default_vlan

-- The state is `id, found`.
pub default_vlan_body : Command → ℕ × Bool → Result (ℕ × Bool)
default_vlan_body c (id, found) = do
  reject_if (found || not c.valid) "invalid or duplicate native default VLAN setting"
  reject_if (ltb c.number 1 || ltb 4095 c.number) "invalid native default VLAN ID"
  ok (c.number, true)

unfoldable pub default_vlan_id : Document → Result ℕ
unfolding is_default_vlan default_vlan_body
default_vlan_id d =
    for_selected is_default_vlan default_vlan_body d.commands (1, false) >>= λ r. ok r.0

unfoldable pub is_lag_header : Command → Bool
is_lag_header c = is_top c && c.kind == lag_header

pub has_lag_body : ℕ → Command → Bool → Result Bool
has_lag_body id c found = do
  reject_if (not c.valid || ltb c.number 1) "native LAG header is malformed"
  (if not (c.number == id)
      then ok found
      else reject_if found "native LAG identity is repeated" >> ok true)

-- `HasLAG`
unfoldable pub has_lag : Document → ℕ → Result Bool
unfolding is_lag_header has_lag_body
has_lag d id = do
  reject_if (ltb id 1) "invalid LAG identity"
  for_selected is_lag_header (has_lag_body id) d.commands false

-- A map from VLAN identities to command positions, in the order of its insertions.
pub lookup_vlan : ℕ → List (ℕ × ℕ) → Option ℕ
lookup_vlan id [] = none
lookup_vlan id ((j, place) ∷ m) = if j == id then some place else lookup_vlan id m

abbrev pub has_vlan : ℕ → List (ℕ × ℕ) → Bool
has_vlan id [] = false
has_vlan id ((j, place) ∷ m) = j == id || has_vlan id m

pub vlans_step : ℕ → Command → List (ℕ × ℕ) → Result (List (ℕ × ℕ))
vlans_step i c vlans = if not (is_top c) || not (c.kind == vlan_header) then ok vlans else (do
  reject_if (not c.valid) "native VLAN identity is missing"
  reject_if (ltb c.number 1 || ltb 4095 c.number) "native VLAN identity is invalid"
  reject_if (has_vlan c.number vlans) "native configuration repeats a VLAN"
  ok ((c.number, i) ∷ vlans))

-- `VLANs`
unfoldable pub vlans : Document → Result (List (ℕ × ℕ))
unfolding vlans_step loop
vlans d = loop vlans_step 0 d.commands []

pub flow_control_in : List Command → Bool
flow_control_in [] = false
flow_control_in (c ∷ cs) = is_top c && c.kind == symmetric_flow_control || flow_control_in cs

-- `SymmetricFlowControl`
unfoldable pub symmetric_flow : Document → Bool
unfolding flow_control_in
symmetric_flow d = flow_control_in d.commands
