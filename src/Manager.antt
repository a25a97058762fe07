-- ===== src/Manager.antt =====
-- internal/apps/fastpod-controller-manager: the controller manager's view of nodes and GPUs.
pub mod State
pub mod Fit
pub mod Queue
pub mod Config
pub mod Request
pub mod Schedule
pub mod Remove
pub mod RemoveAll
pub mod Validate
pub mod Books
pub mod Outcomes
pub mod Each
pub mod Safety
pub mod Ports
pub mod PortSafety
pub mod PortRemoval
pub mod PortRemovalAll
pub mod Example
mod Tests
mod RemovalTests
pub mod Panics
pub mod Checks
pub mod Admission
pub mod EndToEnd
pub mod RoundTrip
