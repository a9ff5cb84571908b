-- ===== src/Config/Interface.antt =====
-- internal/config/config.go: `interfaceHeader`, and internal/config/interface.go: the policy that
-- one resource owns inside an interface stanza.
pub mod Header
pub mod Storm
mod Tests
use fastiron_tofu.Prelude.{
  ℕ, ◌+◌, ◌≡◌, Bool, true, false, not, ◌&&◌, ◌||◌, List, [], ◌∷◌, ◌++◌, Bytes, codes, Option, none,
  some, Result, ok, err, message, ◌>>=◌, ◌>>◌, reject_if, loop, ltb, ◌==◌, if◌then◌else◌, bytes_eq,
  is_none, same_place,
}
use fastiron_tofu.Config.Command.{
  Command, Document, Kind, is_top, interface_stanza, trust_dscp, protected_port, voice_vlan,
  storm_limit,
}
use fastiron_tofu.Config.Sift.{Role, skipped, kept, owned, sift}

-- A valid top-level stanza of this interface.
pub is_interface : Bytes → Command → Bool
is_interface name c = is_top c && c.kind == interface_stanza && c.valid && bytes_eq c.name name

pub header_step : Bytes → ℕ → Command → Option ℕ → Result (Option ℕ)
unfolding is_interface
header_step name i c found =
    if not (is_interface name c)
    then ok found
    else reject_if (not (is_none found)) "native configuration repeats the requested interface"
      >> ok (some i)

-- `interfaceHeader`
unfoldable pub interface_header : Document → Bytes → Result (Option ℕ)
unfolding header_step loop
interface_header d name = loop (header_step name) 0 d.commands none

-- `header >= 0 && c.Parent == header`
abbrev pub is_child : Option ℕ → Command → Bool
is_child header c = not (is_none header) && same_place c.parent header

pub data Policy : Type 0 where
  dscp_trust protection voice storm : Policy

-- The array `wanted`.
pub wanted : Policy → Kind
wanted dscp_trust = trust_dscp
wanted protection = protected_port
wanted voice = voice_vlan
wanted storm = storm_limit

pub record InterfacePolicy : Type 0 where
  pub enabled : Bool
  pub vlan : ℕ
  pub unit : Bytes
  pub limits : List (Bytes × ℕ)
  pub options : Bool

abbrev pub no_policy : InterfacePolicy
no_policy = record { enabled = false; vlan = 0; unit = []; limits = []; options = false }

pub has_limit : Bytes → List (Bytes × ℕ) → Bool
has_limit name [] = false
has_limit name ((n, rate) ∷ limits) = bytes_eq n name || has_limit name limits

pub consume_flag : Command → InterfacePolicy → Result InterfacePolicy
consume_flag c s = do
  reject_if s.enabled "native interface flag is malformed or repeated"
  ok (record s { enabled = true })

pub consume_voice : Command → InterfacePolicy → Result InterfacePolicy
consume_voice c s = do
  reject_if (not (s.vlan == 0)) "native interface voice VLAN is ambiguous"
  reject_if (ltb c.number 1 || ltb 4095 c.number) "native interface voice VLAN is invalid"
  ok (record s { vlan = c.number })

-- The unit of a storm limit that names none.
abbrev pub storm_unit : Command → Bytes
storm_unit c = if bytes_eq c.unit [] then codes "pps" else c.unit

pub consume_storm : Command → InterfacePolicy → Result InterfacePolicy
unfolding has_limit
consume_storm c s = do
  reject_if (c.number == 0) "native storm limit is invalid"
  reject_if (has_limit c.name s.limits) "native configuration repeats a storm traffic class"
  reject_if (not (bytes_eq s.unit []) && not (bytes_eq s.unit (storm_unit c)))
      "native storm limits use different units on one interface"
  ok (record s {
    unit = storm_unit c;
    limits = (c.name, c.number) ∷ s.limits;
    options = s.options || c.options;
  })

-- `consume`
pub consume : Command → InterfacePolicy → Result InterfacePolicy
unfolding consume_flag consume_voice consume_storm
consume c s = do
  reject_if (not c.valid) "native interface policy is malformed"
  (if c.kind == trust_dscp || c.kind == protected_port
      then consume_flag c s
      else if c.kind == voice_vlan
      then consume_voice c s
      else if c.kind == storm_limit
      then consume_storm c s
      else ok s)

pub policy_role : Option ℕ → Policy → ℕ → Command → Role
unfolding wanted
policy_role header policy i c =
    if same_place (some i) header
    then skipped
    else if not (is_child header c) || not (c.kind == wanted policy)
    then kept
    else owned

-- `InterfacePolicy`: the owned settings, and the text of every other command.
unfoldable pub interface_policy : Document → Bytes → Policy → Result (InterfacePolicy × List Bytes)
unfolding policy_role consume
interface_policy d name policy = do
  header ← interface_header d name
  sift (policy_role header policy) consume d.commands no_policy
