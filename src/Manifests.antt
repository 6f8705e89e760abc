-- ===== src/Manifests.antt =====
-- internal/manifests: the Kubernetes objects and configuration files that the operator renders.
pub mod Settings
pub mod Naming
pub mod Budget
pub mod Tier
pub mod Services
pub mod Network
pub mod Pods
pub mod Workload
pub mod Routes
pub mod Unstructured
