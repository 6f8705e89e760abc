-- ===== src/Controller/Servers.antt =====
-- internal/controller/powerdnsserver_controller.go: the reconciler of PowerDNSServer resources.
pub mod Validation
pub mod Status
pub mod Backend
pub mod Workload
pub mod Exposure
pub mod Phases
pub mod Reconcile
pub mod Lifecycle
