-- ===== src/Config/Command.antt =====
-- internal/config/config.go: command kinds, parsed arguments, commands and documents. The parent
-- index -1 is `none`, and an integer that the grammar writes in digits only is a natural number.
use fastiron_tofu.Prelude.{ℕ, Bool, false, List, [], Option, Bytes, is_none}

-- `type kind uint8`, numbered as `iota` does.
abbrev pub Kind : Type 0
Kind = ℕ

abbrev pub unknown : Kind
unknown = 0

abbrev pub trust_dscp : Kind
trust_dscp = 1

abbrev pub protected_port : Kind
protected_port = 2

abbrev pub voice_vlan : Kind
voice_vlan = 3

abbrev pub storm_limit : Kind
storm_limit = 4

abbrev pub jumbo_mode : Kind
jumbo_mode = 5

abbrev pub port_name : Kind
port_name = 6

abbrev pub admin_disable : Kind
admin_disable = 7

abbrev pub default_vlan : Kind
default_vlan = 8

abbrev pub vlan_header : Kind
vlan_header = 9

abbrev pub lag_header : Kind
lag_header = 10

abbrev pub lag_ports : Kind
lag_ports = 11

abbrev pub interface_stanza : Kind
interface_stanza = 12

abbrev pub acl_header : Kind
acl_header = 13

abbrev pub multicast_config : Kind
multicast_config = 14

abbrev pub symmetric_flow_control : Kind
symmetric_flow_control = 15

abbrev pub lldp_run : Kind
lldp_run = 16

abbrev pub lldp_ports : Kind
lldp_ports = 17

abbrev pub lldp_med : Kind
lldp_med = 18

abbrev pub inline_power : Kind
inline_power = 19

abbrev pub inline_power_port : Kind
inline_power_port = 20

abbrev pub spanning_tree : Kind
spanning_tree = 21

abbrev pub stp_edge : Kind
stp_edge = 22

abbrev pub stp_root : Kind
stp_root = 23

abbrev pub stp_bpdu : Kind
stp_bpdu = 24

abbrev pub static_route : Kind
static_route = 25

abbrev pub ospf_router : Kind
ospf_router = 26

abbrev pub ospf_area : Kind
ospf_area = 27

abbrev pub ospf_binding : Kind
ospf_binding = 28

abbrev pub ospf_option : Kind
ospf_option = 29

abbrev pub interface_vrf : Kind
interface_vrf = 30

abbrev pub dns_servers : Kind
dns_servers = 31

-- `[3]uint64`: stack, slot and port.
pub record PortId : Type 0 where
  pub stack : ℕ
  pub slot : ℕ
  pub port : ℕ

pub record PortRange : Type 0 where
  pub first : PortId
  pub last : PortId

pub record MedPolicy : Type 0 where
  pub traffic : Bytes
  pub vlan : ℕ
  pub priority : ℕ
  pub dscp : ℕ

pub record PoePolicy : Type 0 where
  pub enabled : Bool
  pub priority : ℕ
  pub power_by_class : ℕ
  pub power_limit_milliwatts : ℕ

pub record RouteSyntax : Type 0 where
  pub prefix : Bytes
  pub mask : Bytes
  pub gateway : Bytes
  pub distance : ℕ
  pub options : Bool
  pub ignored : Bool

pub record DnsAddress : Type 0 where
  pub address : Bytes
  pub dynamic : Bool

pub record ParsedCommand : Type 0 where
  pub kind : Kind
  pub valid : Bool
  pub name : Bytes
  pub unit : Bytes
  pub family : Bytes
  pub number : ℕ
  pub options : Bool
  pub global : Bool
  pub negated : Bool
  pub direction : Bytes
  pub port_ranges : List PortRange
  pub all_ports : Bool
  pub med : MedPolicy
  pub poe : PoePolicy
  pub poe_fields : ℕ
  pub route : RouteSyntax
  pub dns : List DnsAddress

pub record Command : Type 0 where
  pub text : Bytes
  pub fields : List Bytes
  pub parent : Option ℕ
  pub indent : ℕ
  pub parsed : ParsedCommand
  pub open parsed use *

pub record Document : Type 0 where
  pub commands : List Command
  pub complete : Bool
  pub started : Bool
  pub stack : List ℕ
  pub banner : ℕ

-- `c.Parent == -1`
abbrev pub is_top : Command → Bool
is_top c = is_none c.parent

-- The zero values, and a valid command of a kind.
abbrev pub no_parse : ParsedCommand
no_parse = record {
  kind = unknown;
  valid = false;
  name = [];
  unit = [];
  family = [];
  number = 0;
  options = false;
  global = false;
  negated = false;
  direction = [];
  port_ranges = [];
  all_ports = false;
  med = record { traffic = []; vlan = 0; priority = 0; dscp = 0 };
  poe = record { enabled = false; priority = 0; power_by_class = 0; power_limit_milliwatts = 0 };
  poe_fields = 0;
  route = record {
    prefix = [];
    mask = [];
    gateway = [];
    distance = 0;
    options = false;
    ignored = false;
  };
  dns = [];
}

abbrev pub empty_document : Document
empty_document = record { commands = []; complete = false; started = false; stack = []; banner = 0 }
