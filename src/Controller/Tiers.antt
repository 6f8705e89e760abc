-- ===== src/Controller/Tiers.antt =====
-- internal/controller/dnsdist_controller.go: the reconciler of DNSDist resources.
pub mod Backends
pub mod Validation
pub mod Children
pub mod Reconcile
pub mod Selection
pub mod Outcome
