-- ===== src/Controller.antt =====
-- internal/controller: the reconcilers.
pub mod World
pub mod Common
pub mod Access
pub mod Records
pub mod Zones
pub mod Servers
pub mod Services
pub mod Tiers
pub mod Watches
pub mod Objects
pub mod Kube
