-- ===== src/Cluster/Reports.antt =====
-- show.go and ipaddr.go: the two reports together.
use machinecfg.Prelude.{String, ◌≡◌, List}
use machinecfg.Effect.{Reply}
use machinecfg.Netbox.{Netbox}
use machinecfg.Kube.{Kube}
use machinecfg.Cluster.Show.{show}
use machinecfg.Cluster.Show.Reads.{show-changes_nothing}
use machinecfg.Cluster.IpRows.{show_ip_addresses}
use machinecfg.Cluster.IpRows.Reads.{show_ip_addresses-changes_nothing}

-- The report of clusters and the report of their addresses change neither NetBox nor Kubernetes,
-- however they end.
pub reports-change_nothing :
    (N : Netbox) (K : Kube) (unmarshal : String → Reply (List String)) (namespace : String)
    (cluster_names : List String) (w : N.State × K.State)
    → ((show N K namespace cluster_names w).1 ≡ w)
      × ((show_ip_addresses N K unmarshal namespace cluster_names w).1 ≡ w)
reports-change_nothing N K unmarshal namespace cluster_names w = (
  show-changes_nothing N K namespace cluster_names w,
  show_ip_addresses-changes_nothing N K unmarshal namespace cluster_names w,
)
