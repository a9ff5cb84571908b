-- ===== src/Config/Ve.antt =====
-- internal/config/ve.go: `VE`, the virtual interface that a VLAN routes through.
pub mod Rows
mod Tests
use fastiron_tofu.Prelude.{
  ℕ, ◌+◌, Bool, true, false, not, ◌&&◌, ◌||◌, List, [], ◌∷◌, ◌++◌, Bytes, codes, Option, none, some,
  Result, ok, ◌>>=◌, ◌>>◌, reject_if, loop, ◌==◌, if◌then◌else◌, is_none, same_place,
}
use fastiron_tofu.Config.Command.{Command, Document, PortRange, is_top, port_name, admin_disable}
use fastiron_tofu.Config.Interface.{interface_header, is_child}

pub record Ve : Type 0 where
  pub exists : Bool
  pub port_name : Bytes
  pub enabled : Bool
  pub has_children : Bool
  pub remaining : List Bytes

-- The loop's variables: the answer, `inside` and `named`.
pub record VeState : Type 0 where
  pub ve : Ve
  pub inside : Bool
  pub named : Bool

-- `if command.Parent == -1 { inside = i == header }`
abbrev pub inside_now : Option ℕ → ℕ → Command → Bool → Bool
inside_now header i c inside = if is_top c then same_place (some i) header else inside

abbrev pub is_name : Option ℕ → Bool → Command → Bool
is_name header inside c = inside && is_child header c && c.kind == port_name

abbrev pub is_disable : Option ℕ → Bool → Command → Bool
is_disable header inside c = inside && is_child header c && c.kind == admin_disable

abbrev pub has_ranges : List PortRange → Bool
has_ranges [] = false
has_ranges (r ∷ rs) = true

pub take_name : Command → Bool → VeState → Result VeState
take_name c inside s =
    reject_if (s.named || not c.valid) "native VE port name is missing or repeated"
    >> ok (record s { ve = record s.ve { port_name = c.name }; inside = inside; named = true })

-- What is not the port name stays in the text, and a bare `disable` turns the interface off.
abbrev pub kept_child : Bool → Command → Bool → VeState → VeState
kept_child disables c inside s = record s {
  ve = record s.ve {
    has_children = s.ve.has_children || inside;
    enabled = s.ve.enabled && not disables;
    remaining = s.ve.remaining ++ c.text ∷ [];
  };
  inside = inside;
}

pub keep_child : Bool → Command → Bool → VeState → Result VeState
keep_child disables c inside s =
    reject_if (disables && (not s.ve.enabled || not c.valid || has_ranges c.port_ranges))
      "native VE administrative setting is malformed or repeated"
    >> ok (kept_child disables c inside s)

-- One command other than the header.
pub child_step : Option ℕ → Bool → Command → VeState → Result VeState
unfolding take_name keep_child
child_step header inside c s =
    if is_name header inside c
    then take_name c inside s
    else keep_child (is_disable header inside c) c inside s

pub ve_step : Option ℕ → ℕ → Command → VeState → Result VeState
unfolding child_step
ve_step header i c s =
    let inside = inside_now header i c s.inside in
    if same_place (some i) header
    then ok (record s { inside = inside })
    else child_step header inside c s

abbrev pub ve_start : Option ℕ → VeState
ve_start header = record {
  ve = record {
    exists = not (is_none header);
    port_name = [];
    enabled = true;
    has_children = false;
    remaining = [];
  };
  inside = false;
  named = false;
}

-- `VE`, for the name `ve <id>` of the interface.
unfoldable pub read_ve : Document → Bytes → Result Ve
unfolding ve_step
read_ve d name = do
  header ← interface_header d name
  s ← loop (ve_step header) 0 d.commands (ve_start header)
  ok s.ve
