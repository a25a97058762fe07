-- ===== src/Configurator.antt =====
-- internal/apps/fast-configurator: the MPS servers and virtual GPUs of a node.
pub mod Mps
pub mod Resource
pub mod ResourceLaws
pub mod Server
pub mod ServerLaws
pub mod Devices
pub mod Discovery
pub mod Handlers
pub mod Entries
pub mod EntrySafety
pub mod ServerSafety
pub mod HandlerSafety
pub mod Operations
pub mod ServerFlags
mod Tests
mod DiscoveryTests
