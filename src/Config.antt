-- ===== src/Config.antt =====
-- internal/config: complete native configurations, and what the features read from them.
pub mod Command
pub mod Sift
pub mod Select
pub mod Globals
pub mod Interface
pub mod Words
pub mod CommandKind
pub mod Numbers
pub mod PortId
pub mod Route
pub mod MemberName
pub mod Syntax
pub mod Acl
pub mod Poe
pub mod Lags
pub mod LagRemoval
pub mod Igmp
pub mod Stp
pub mod Ve
pub mod LagInterface
pub mod Ports
pub mod Document
mod Tests
