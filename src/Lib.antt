-- ===== src/Lib.antt =====
-- An OpenTofu provider for FastIron switches reads the native configuration of a switch over SSH
-- and changes it over RESTCONF. Modelled here are its two cores, and the feature for IP access
-- lists.
--
-- internal/config turns the text of a running or startup configuration into a document of
-- commands, and the features read their settings from it. Ragel is the automaton that the
-- generated parsers run over their tables. Config.Words (`commandFields`), Config.CommandKind,
-- Config.PortId (`parseEthernetPort`), Config.MemberName (`lagNamedPort`) and Config.Syntax
-- (`parseCommand`) are the machines of command_parser.go, Config.Route is that of route_parser.go,
-- and Config.Document is parser.go with `line` of config.go. Config.Numbers is what the machines
-- call of strconv. Config.Command has the data of config.go. Config.Globals (jumbo.go, lldp.go,
-- vlan.go, `HasLAG` of lag.go, `VLANs` of igmp.go), Config.Interface (interface.go), Config.Stp
-- (stp.go), Config.Ve (ve.go), Config.LagInterface (lag_interface.go), Config.Lags and
-- Config.LagRemoval (`LAGs` and `CheckLAGRemoval` of lag.go), Config.Igmp (igmp.go), Config.Acl
-- (acl.go), Config.Poe (poe.go) and Config.Ports (ports.go) are extractors: each walks the
-- commands of a document. Config.Sift and Config.Select are two shapes of these walks.
--
-- internal/fastiron is the device that every feature goes through: Device.Connection and
-- Device.Save are device.go, Device.Update is update.go, Device.Select the two `select` statements
-- of device.go, Device.Gate many calls that take the locks of hosts and the discoveryGates of
-- devices in any interleaving, and Device.Failure the errors that errors.Is looks through. A
-- feature's callback is a tree of the calls that it makes. The features read documents of
-- Config.Document, and `save` compares two of them.
--
-- internal/features/acl reads the access lists of a document and checks those of a plan. Acl has
-- the types of ip.go with `standardSource` of standard.go, Acl.Protocols and Acl.Services the
-- vocabularies, Acl.Native the rules and Acl.Configuration the lists of ip_native.go, Acl.Validate
-- is `validateIP` of ip.go, and Acl.References is references.go.
--
-- Conventions. A Go string is a list of bytes; `strings.TrimSpace` and `strings.ToLower` are those
-- of ASCII text. The parent index -1 is `none`. Integers that the grammar writes in digits only
-- are natural numbers; others are integers, and where 64-bit arithmetic can wrap, the modulus is
-- written out. A map is a list of entries in the order of its iteration. The binary searches of
-- the automaton take the number of keys as fuel, which bounds their rounds, since each round drops
-- a key. An error is its message.
--
-- Parameters: the document reader takes `parseCommand`, and the version check the regular
-- expressions of `parseVersion`, as functions of which nothing is assumed; the access lists take
-- the functions of net, net/netip and unicode as a record; the SSH and RESTCONF clients are an
-- environment that answers commands and requests and changes an abstract world. A context is its
-- error and, for each of the two waits, the moments at which the `select` looks: what others have
-- done to the state by then, whether the context has ended, and which arm is picked where both are
-- ready. A list of moments that runs out leaves the call waiting.
--
-- Not modelled: the other extractors of internal/config, the transports, the RESTCONF documents
-- and writes of the features, the features other than access lists, standard and MAC lists and
-- access groups, and the glue to OpenTofu. The modules named Tests hold runs on small inputs.
pub mod Prelude
pub mod Ragel
pub mod Config
pub mod Acl
pub mod Device
