-- ===== src/NetboxUpdater.antt =====
-- internal/controller/netbox_updater: the controller that writes the state of Kubernetes to NetBox,
-- the start of its process, and the controller over time.
pub mod Config
pub mod Devices
pub mod Clusters
pub mod Process
pub mod Events
pub mod Watches
