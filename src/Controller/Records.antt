-- ===== src/Controller/Records.antt =====
-- internal/controller/rrset_controller.go: the reconciler of record sets.
pub mod Match
pub mod Conflict
pub mod Deletion
pub mod Reconcile
