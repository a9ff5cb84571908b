-- ===== src/Config/Poe.antt =====
-- internal/config/poe.go: `PoE`, the inline-power policy of a port.
pub mod Policy
mod Tests
use Prim.Native.Nat.{bit_and}
use fastiron_tofu.Prelude.{
  ℕ, Bool, true, false, not, ◌&&◌, ◌||◌, List, [], ◌∷◌, Option, none, some, Bytes, codes, Result,
  ok, err, message, ◌>>=◌, ◌>>◌, reject_if, reject_any, Error, ◌==◌, ltb, if◌then◌else◌, bytes_eq,
  is_none, same_place, cut_prefix,
}
use fastiron_tofu.Config.Command.{
  Command, Document, PoePolicy, inline_power, inline_power_port, is_top,
}
use fastiron_tofu.Config.PortId.{parse_ethernet_port}
use fastiron_tofu.Config.Sift.{Role, skipped, kept, owned, sift}
use fastiron_tofu.Config.Interface.{interface_header, is_child}

-- A global command for this port, or for all of them.
abbrev pub is_global_power : Bytes → Command → Bool
is_global_power raw c =
    is_top c && c.kind == inline_power_port && (bytes_eq c.name raw || bytes_eq c.name [])

abbrev pub poe_role : Option ℕ → Bytes → ℕ → Command → Role
poe_role header raw i c =
    if same_place (some i) header
    then skipped
    else if is_child header c && (c.kind == inline_power || c.kind == inline_power_port)
        || is_global_power raw c
    then owned
    else kept

-- The policy so far, and `seen`.
pub record PoeState : Type 0 where
  pub policy : PoePolicy
  pub seen : Bool

abbrev pub poe_start : PoeState
poe_start = record {
  policy = record { enabled = true; priority = 3; power_by_class = 0; power_limit_milliwatts = 0 };
  seen = false;
}

abbrev pub poe_checks : Bytes → Command → Bool → List (Bool × Error)
poe_checks raw c seen =
    (is_global_power raw c && not c.valid, message "native global PoE port command is malformed")
    ∷ (
      seen || not c.valid || not (is_top c) && c.kind == inline_power_port,
      message "native PoE policy is malformed or repeated",
    )
    ∷ (
      ltb c.poe.priority 1 || ltb 3 c.poe.priority || ltb 4 c.poe.power_by_class,
      message "native PoE priority or class is invalid",
    )
    ∷ (
      not (bit_and c.poe_fields 4 == 0)
          && (ltb c.poe.power_limit_milliwatts 1000 || ltb 95000 c.poe.power_limit_milliwatts),
      message "native PoE power limit is invalid",
    )
    ∷ []

unfoldable pub poe_body : Bytes → Command → PoeState → Result PoeState
poe_body raw c s =
    reject_any (poe_checks raw c s.seen) >> ok (record { policy = c.poe; seen = true })

abbrev pub named_poe : Document → Bytes → Bytes → Result (PoePolicy × List Bytes)
named_poe d name raw = do
  reject_if (not (parse_ethernet_port raw).1) "PoE requires a canonical Ethernet identity"
  header ← interface_header d name
  (s, remaining) ← sift (poe_role header raw) (poe_body raw) d.commands poe_start
  ok (s.policy, remaining)

-- `PoE`
unfoldable pub poe : Document → Bytes → Result (PoePolicy × List Bytes)
unfolding cut_prefix parse_ethernet_port sift poe_body bytes_eq
poe d name = elim (cut_prefix (codes "ethernet ") name) [
  | none ↦ err (message "PoE requires a canonical Ethernet identity")
  | some raw ↦ named_poe d name raw
]
