-- ===== src/Nodes.antt =====
-- internal/apps/fastpod-controller-manager: the nodes that join the controller manager, and the
-- controller manager as a system of interleaved steps.
pub mod Join
pub mod Liveness
pub mod Keeps
pub mod KeepsRemoval
pub mod Cluster
pub mod Ports
pub mod Waiters
pub mod Invariant
pub mod Reachable
pub mod LivenessLaws
pub mod Interleaved
pub mod Example
mod Tests
