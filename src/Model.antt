-- ===== src/Model.antt =====
-- coordinator/internal/model: the shared enumerations and the job spec.
pub mod States
pub mod Phase
pub mod Spec
