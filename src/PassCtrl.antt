-- ===== src/PassCtrl.antt =====
-- coordinator/internal/passctrl: the controller of a job's passes.
pub mod Batches
pub mod Converge
pub mod Seeds
pub mod Lifecycle
pub mod Advance
