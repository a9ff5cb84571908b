-- ===== src/Config/Stp.antt =====
-- internal/config/stp.go: `STPVLAN` and `STPVLANs`.
pub mod Header
pub mod Policy
pub mod Sorting
pub mod All
mod Tests
use fastiron_tofu.Prelude.{
  ℕ, ◌+◌, ◌≡◌, Bool, true, false, not, ◌&&◌, ◌||◌, List, [], ◌∷◌, ◌++◌, Bytes, codes, Option, none,
  some, Result, ok, err, message, numbered, ◌>>=◌, ◌>>◌, reject_if, loop, ltb, leb, ◌==◌,
  if◌then◌else◌, bytes_eq, is_none, same_place,
}
use fastiron_tofu.Config.Command.{
  Command, Document, is_top, vlan_header, spanning_tree, stp_edge, stp_root,
}
use fastiron_tofu.Config.Sift.{Role, skipped, kept, owned, sift}

pub record StpVlan : Type 0 where
  pub vlan_id : ℕ
  pub mode : Bytes
  pub priority : ℕ

-- The last header of the VLAN so far.
pub vlan_header_step : ℕ → ℕ → Command → Option ℕ → Result (Option ℕ)
vlan_header_step id i c header =
    if not (is_top c) || not (c.kind == vlan_header) || not (c.number == id)
    then ok header
    else reject_if (not c.valid || not (is_none header))
        "native configuration has an invalid or repeated VLAN header"
      >> ok (some i)

-- `policy`, `modeSeen` and `prioritySeen`.
pub record StpState : Type 0 where
  pub policy : Option StpVlan
  pub mode_seen : Bool
  pub priority_seen : Bool

abbrev pub no_stp : StpState
no_stp = record { policy = none; mode_seen = false; priority_seen = false }

-- A child of the header that sets spanning tree is owned; the rest is kept.
pub stp_role : Option ℕ → ℕ → Command → Role
stp_role header i c =
    if is_none header
      || not (same_place c.parent header)
      || not (c.kind == spanning_tree) && not (c.kind == stp_edge) && not (c.kind == stp_root)
    then kept
    else owned

-- `if policy == nil { policy = … }`
abbrev pub policy_or : ℕ → Command → Option StpVlan → StpVlan
policy_or id c none = record { vlan_id = id; mode = c.family; priority = 32768 }
policy_or id c (some p) = p

-- Behind the choice of the policy: one more command for it.
pub stp_setting : Command → StpVlan → StpState → Result StpState
stp_setting c policy s = do
  reject_if (not (bytes_eq policy.mode c.family))
      "native VLAN contains conflicting spanning-tree modes"
  (if c.options
      then reject_if s.priority_seen "native VLAN repeats its spanning-tree priority"
        >> ok (record s {
          policy = some (record policy { priority = c.number });
          priority_seen = true;
        })
      else reject_if s.mode_seen "native VLAN repeats its spanning-tree mode"
        >> ok (record s { policy = some policy; mode_seen = true }))

pub stp_body : ℕ → Command → StpState → Result StpState
unfolding stp_setting
stp_body id c s = do
  reject_if (not c.valid || not (c.kind == spanning_tree))
      "native VLAN has malformed or unsupported spanning-tree settings"
  reject_if (ltb 65535 c.number) "invalid native spanning-tree bridge priority"
  stp_setting c (policy_or id c s.policy) s

-- `STPVLAN`
unfoldable pub stp_vlan : Document → ℕ → Result (Option StpVlan × List Bytes)
unfolding vlan_header_step stp_role stp_body loop
stp_vlan d id = do
  reject_if (ltb id 1 || ltb 4095 id) "invalid spanning-tree VLAN identity"
  header ← loop (vlan_header_step id) 0 d.commands none
  found ← sift (stp_role header) (stp_body id) d.commands no_stp
  ok (found.0.policy, found.1)

abbrev pub is_vlan_header : Command → Bool
is_vlan_header c = is_top c && c.kind == vlan_header

-- What the answer for one VLAN adds.
abbrev pub add_policy :
    ℕ → List StpVlan → Result (Option StpVlan × List Bytes) → Result (List StpVlan)
add_policy id policies (err e) = err (numbered "cannot read spanning-tree VLAN" id e)
add_policy id policies (ok (none, remaining)) = ok policies
add_policy id policies (ok (some p, remaining)) = ok (policies ++ p ∷ [])

pub policies_step : Document → ℕ → Command → List StpVlan → Result (List StpVlan)
policies_step d i c policies =
    if not (is_vlan_header c)
    then ok policies
    else if not c.valid
    then err (message "native configuration has an invalid VLAN header")
    else add_policy c.number policies (stp_vlan d c.number)

-- `slices.SortFunc` by the identity.
pub insert_policy : StpVlan → List StpVlan → List StpVlan
insert_policy p [] = p ∷ []
insert_policy p (q ∷ qs) = if ltb q.vlan_id p.vlan_id then q ∷ insert_policy p qs else p ∷ q ∷ qs

pub sort_policies : List StpVlan → List StpVlan
unfolding insert_policy
sort_policies [] = []
sort_policies (p ∷ ps) = insert_policy p (sort_policies ps)

-- `STPVLANs`
unfoldable pub stp_vlans : Document → Result (List StpVlan)
unfolding policies_step sort_policies
stp_vlans d = loop (policies_step d) 0 d.commands [] >>= λ ps. ok (sort_policies ps)
