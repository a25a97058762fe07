-- ===== src/Controller.antt =====
-- internal/apps/fastpod-controller-manager: the pods that the controller creates for a FaSTPod.
pub mod NewPod
pub mod Create
pub mod CreateLaws
pub mod ScaleUp
pub mod PodOn
pub mod Made
pub mod Reconfigure
pub mod ReconfigureLaws
pub mod Usage
mod ReconfigureTests
pub mod ScaleDown
pub mod ScaleDownLaws
mod ScaleDownTests
mod Tests
