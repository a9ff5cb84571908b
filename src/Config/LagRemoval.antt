-- ===== src/Config/LagRemoval.antt =====
-- internal/config/lag.go: `CheckLAGRemoval`, what the deletion of an aggregate would erase.
pub mod Members
pub mod Inventory
pub mod Block
pub mod Erased
mod Tests
use fastiron_tofu.Prelude.{
  ℕ, ◌+◌, Bool, true, false, not, ◌&&◌, ◌||◌, List, [], ◌∷◌, ◌++◌, Option, none, some, Bytes, codes,
  Result, ok, err, message, ◌>>=◌, ◌>>◌, reject_if, ◌==◌, if◌then◌else◌, bytes_eq, has_text,
  is_none, same_place,
}
use fastiron_tofu.Config.Command.{Command, Document, PortId, lag_ports, admin_disable, port_name}
use fastiron_tofu.Config.Numbers.Decimal.{format_uint}
use fastiron_tofu.Config.Select.{for_selected, body_all}
use fastiron_tofu.Config.Globals.{has_lag, is_lag_header}
use fastiron_tofu.Config.Interface.{interface_header, is_child}
use fastiron_tofu.Config.MemberName.{lag_named_port}
use fastiron_tofu.Config.Ports.{PortMap, names_of, ethernet_id, resolve_ports}
use fastiron_tofu.Config.Ve.{has_ranges}

-- The first header of the aggregate, from a position on.
pub first_header : ℕ → ℕ → List Command → Option ℕ
unfolding is_lag_header
first_header id i [] = none
first_header id i (c ∷ cs) =
    let rest = first_header id (i + 1) cs in
    if is_lag_header c && c.number == id then some i else rest

-- `inventory[name] = port`
pub put_port : Bytes → PortId → PortMap → PortMap
unfolding bytes_eq
put_port name id [] = (name, id) ∷ []
put_port name id ((n, old) ∷ more) =
    let rest = put_port name id more in if bytes_eq n name then (n, id) ∷ more else (n, old) ∷ rest

unfoldable pub member_inventory : List Bytes → PortMap → Result PortMap
unfolding put_port ethernet_id
member_inventory [] ports = ok ports
member_inventory (name ∷ names) ports = elim (ethernet_id name) [
  | none ↦ err (message "invalid LAG member identity")
  | some id ↦ member_inventory names (put_port name id ports)
]

pub find_port : Bytes → PortMap → PortId
unfolding bytes_eq
find_port name [] = record { stack = 0; slot = 0; port = 0 }
find_port name ((n, id) ∷ more) = if bytes_eq n name then id else find_port name more

-- `actual[name] = inventory[name]` for the names of one list.
unfoldable pub add_members : PortMap → List Bytes → PortMap → Result PortMap
unfolding find_port has_text
add_members inventory [] actual = ok actual
add_members inventory (name ∷ names) actual =
    reject_if (has_text name (names_of actual)) "native LAG member is assigned more than once"
    >> add_members inventory names (actual ++ (name, find_port name inventory) ∷ [])

-- `seen` and `actual`
pub record ActualState : Type 0 where
  pub seen : Bool
  pub actual : PortMap

abbrev pub is_in_block : Option ℕ → Command → Bool
is_in_block header c = same_place c.parent header

unfoldable pub actual_body : PortMap → Command → ActualState → Result ActualState
unfolding add_members resolve_ports
actual_body inventory c s = do
  reject_if (s.seen || not c.valid) "native LAG members are malformed or repeated"
  names ← resolve_ports c inventory
  actual ← add_members inventory names s.actual
  ok (record { seen = true; actual = actual })

abbrev removal_error : Result (Unit {0})
removal_error = err (
    message
      "LAG has independent interface or protocol configuration; remove it before destroying the LAG")

-- A command of the block that the removal does not lose: a disable of members, or a member's name.
unfoldable pub block_command : PortMap → Command → Result (Unit {0})
unfolding resolve_ports lag_named_port has_text
block_command actual c =
    if c.kind == admin_disable && c.valid && has_ranges c.port_ranges
    then resolve_ports c actual >>= (λ names. ok tt)
    else if c.kind == port_name && has_text (lag_named_port c.text) (names_of actual)
    then ok tt
    else removal_error

unfoldable pub removal_step : Option ℕ → Option ℕ → PortMap → Command → Result (Unit {0})
unfolding block_command
removal_step virtual header actual c =
    if is_child virtual c
    then err
        (message "LAG has independent interface configuration; remove it before destroying the LAG")
    else if not (is_in_block header c) || c.kind == lag_ports
    then ok tt
    else block_command actual c

unfoldable pub removal_all : Option ℕ → Option ℕ → PortMap → List Command → Result (Unit {0})
unfolding removal_step
removal_all virtual header actual [] = ok tt
removal_all virtual header actual (c ∷ cs) =
    removal_step virtual header actual c >> removal_all virtual header actual cs

-- `CheckLAGRemoval`
unfoldable pub check_lag_removal : Document → ℕ → List Bytes → Result (Unit {0})
unfolding removal_all actual_body member_inventory first_header has_lag interface_header
    for_selected format_uint
check_lag_removal d id members = do
  exists ← has_lag d id
  reject_if (not exists) "cannot confirm the LAG configuration block before deletion"
  let header = first_header id 0 d.commands
  virtual ← interface_header d (codes "lag " ++ format_uint id)
  inventory ← member_inventory members []
  s ←
      for_selected (λ c. is_in_block header c && c.kind == lag_ports) (actual_body inventory)
        d.commands (record { seen = false; actual = [] })
  removal_all virtual header s.actual d.commands
