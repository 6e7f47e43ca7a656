-- ===== src/Cluster.antt =====
-- pkg/cluster: clusters in NetBox and in Kubernetes.
pub mod Groups
pub mod Names
pub mod Endpoint
pub mod Reads
pub mod Records
pub mod Tailscale
pub mod Sync
pub mod IpRows
pub mod Show
pub mod Reports
