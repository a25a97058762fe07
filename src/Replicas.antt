-- ===== src/Replicas.antt =====
-- internal/apps/fastpod-controller-manager: how many pods a FaSTPod gets, and which ones leave
-- (controller.go and controller_util.go).
pub mod Pods
pub mod Order
pub mod OrderLaws
pub mod Scale
pub mod ScaleLaws
pub mod Batch
pub mod BatchLaws
pub mod Example
mod Tests
