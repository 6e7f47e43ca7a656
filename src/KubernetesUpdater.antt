-- ===== src/KubernetesUpdater.antt =====
-- internal/controller/kubernetes_updater: NetBox's devices become Hardware objects; and the start of
-- the controller's process.
pub mod Csv
pub mod Config
pub mod Sync
pub mod Watches
pub mod Process
