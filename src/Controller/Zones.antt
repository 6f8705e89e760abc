-- ===== src/Controller/Zones.antt =====
-- internal/controller/zone_controller.go: the reconciler of Zone resources.
pub mod Create
pub mod Dnssec
pub mod Deletion
pub mod Reconcile
