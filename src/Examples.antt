-- ===== src/Examples.antt =====
-- Tests, and the properties at concrete inputs.
pub mod Trees
pub mod Traffic
pub mod Network
pub mod Paths
pub mod Transport
pub mod Slots
pub mod Visitor
pub mod Weblog
pub mod Visits
pub mod Requests
pub mod Addresses
pub mod Interfaces
pub mod Clients
pub mod TodoSite
pub mod Duplex
pub mod Messages
pub mod Plans
