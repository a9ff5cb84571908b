-- ===== src/Config/Igmp.antt =====
-- internal/config/igmp.go: `IGMP`, the multicast settings of a switch or of a VLAN.
pub mod Settings
pub mod Defaults
mod Tests
use fastiron_tofu.Prelude.{
  ℕ, Bool, true, false, not, ◌&&◌, ◌||◌, List, [], ◌∷◌, ◌++◌, Option, none, some, Bytes, codes,
  Result, ok, err, message, ◌>>=◌, ◌>>◌, reject_if, ◌==◌, if◌then◌else◌, bytes_eq, is_none,
  same_place, same_flag, loop,
}
use fastiron_tofu.Config.Command.{Command, Document, multicast_config}

pub record Igmp : Type 0 where
  pub mode : Bytes
  pub version : ℕ
  pub remaining : List Bytes

-- The answer so far, `modeSeen` and `versionSeen`.
pub record IgmpState : Type 0 where
  pub igmp : Igmp
  pub mode_seen : Bool
  pub version_seen : Bool

abbrev pub igmp_start : IgmpState
igmp_start = record {
  igmp = record { mode = []; version = 0; remaining = [] };
  mode_seen = false;
  version_seen = false;
}

abbrev pub unowned_setting : Command → IgmpState → IgmpState
unowned_setting c s = record s {
  igmp = record s.igmp { remaining = s.igmp.remaining ++ c.text ∷ [] };
}

-- A multicast command of the scope: the top level, or a VLAN header.
abbrev pub in_scope : Option ℕ → Command → Bool
in_scope scope c =
    same_place c.parent scope && c.kind == multicast_config && same_flag c.global (is_none scope)

-- The names of the first case, less the one that the top level does not own.
unfoldable pub is_mode : Option ℕ → Command → Bool
unfolding bytes_eq
is_mode scope c =
    (bytes_eq c.name (codes "active")
      || bytes_eq c.name (codes "passive")
      || bytes_eq c.name (codes "disable-igmp-snoop"))
    && not (is_none scope && bytes_eq c.name (codes "disable-igmp-snoop"))

unfoldable pub is_version : Command → Bool
unfolding bytes_eq
is_version c = bytes_eq c.name (codes "version")

abbrev pub mode_of : Command → Bytes
mode_of c = if bytes_eq c.name (codes "disable-igmp-snoop") then codes "disabled" else c.name

unfoldable pub take_mode : Command → IgmpState → Result IgmpState
unfolding bytes_eq
take_mode c s =
    reject_if s.mode_seen "native IGMP mode is ambiguous or unsupported"
    >> ok (record s { igmp = record s.igmp { mode = mode_of c }; mode_seen = true })

unfoldable pub take_version : Command → IgmpState → Result IgmpState
take_version c s =
    reject_if s.version_seen "native IGMP version is ambiguous or unsupported"
    >> (reject_if (not (c.number == 2) && not (c.number == 3)) "native IGMP version is unsupported"
        >> ok (record s { igmp = record s.igmp { version = c.number }; version_seen = true }))

abbrev pub take_setting : Option ℕ → Command → IgmpState → Result IgmpState
take_setting scope c s =
    if is_mode scope c
    then take_mode c s
    else if is_version c
    then take_version c s
    else ok (unowned_setting c s)

unfoldable pub igmp_step : Option ℕ → ℕ → Command → IgmpState → Result IgmpState
unfolding is_mode is_version take_mode take_version
igmp_step scope i c s =
    if in_scope scope c
    then reject_if (not c.valid) "native IGMP setting is malformed" >> take_setting scope c s
    else ok (unowned_setting c s)

-- The defaults of the top level.
abbrev pub with_defaults : Option ℕ → IgmpState → Igmp
with_defaults (some i) s = s.igmp
with_defaults none s = record s.igmp {
  mode = if s.mode_seen then s.igmp.mode else codes "disabled";
  version = if s.version_seen then s.igmp.version else 2;
}

-- `IGMP`
unfoldable pub igmp : Document → Option ℕ → Result Igmp
unfolding igmp_step loop
igmp d scope = loop (igmp_step scope) 0 d.commands igmp_start >>= λ s. ok (with_defaults scope s)
