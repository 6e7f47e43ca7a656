-- ===== src/Cluster/Sync/Steps/Moves.antt =====
-- sync_status.go: how the stages of a round move NetBox.
use machinecfg.Prelude.{ℕ, String, List, Bool, Dict, Option, none, some, string_eq, nat_eq}
use machinecfg.Effect.{Reply, good, bad}
use machinecfg.Effect.Moves.{Moves, Preorder, both, reads, Moves-pure}
use machinecfg.Netbox.{Netbox, NbCluster, Record}
use machinecfg.Kube.{Kube}
use machinecfg.Cluster.Reads.{get_dns_name_from_prefix-Moves}
use machinecfg.Cluster.Tailscale.{TailscaleDevice, sync_tailscale_ipam}
use machinecfg.Cluster.Records.Moves.{
  Writes, get_or_create_ip_address-Moves, get_or_create_ipam_prefix-Moves,
  get_or_create_service-Moves, get_or_create_service_template-Moves,
}
use machinecfg.Cluster.Tailscale.Reads.{get_kamaji_tailscale_device-Moves}
use machinecfg.Cluster.Sync.Steps.{
  SyncStatusResult, Step, go_on, stop, service_stage, after_template, dns_name_for,
  record_cilium_ip, cilium_stage, record_tailscale, tailscale_stage, then_tailscale, managed_stage,
  annotations_or_error, get_kamaji_control_plane_ip,
}

module _ (K : Kube) (Q : Preorder K.State) where
  annotations_or_error-Moves :
      (name : String) (r : Reply (Option (Dict String))) → Moves Q (annotations_or_error K name r)
  annotations_or_error-Moves name (good none) = search reads
  annotations_or_error-Moves name (good (some m)) = search reads
  annotations_or_error-Moves name (bad e) = search reads

  get_kamaji_control_plane_ip-Moves :
      (namespace name : String) → Moves Q (get_kamaji_control_plane_ip K namespace name)
  unfolding get_kamaji_control_plane_ip
  get_kamaji_control_plane_ip-Moves namespace name =
      search (reads, annotations_or_error-Moves) depth 12

module _ (N : Netbox) (P : Preorder N.State) (W : Writes N P) where
  sync_tailscale_ipam-Moves :
      (group_id : ℕ) (dev : TailscaleDevice) → Moves P (sync_tailscale_ipam N group_id dev)
  unfolding sync_tailscale_ipam
  sync_tailscale_ipam-Moves group_id dev =
      search (reads, get_or_create_ipam_prefix-Moves N P W, get_or_create_ip_address-Moves N P W)
        depth 12

  after_template-Moves :
      (name : String) (port group_id : ℕ) (r : SyncStatusResult) (o : Reply (Record × Bool))
      → Moves P (after_template N name port group_id r o)
  after_template-Moves name port group_id r (bad e) = Moves-pure _
  after_template-Moves name port group_id r (good (template, created)) =
      search (reads, get_or_create_service-Moves N P W) depth 12

  pub service_stage-Moves :
      (name : String) (port group_id : ℕ) (r : SyncStatusResult)
      → Moves P (service_stage N name port group_id r)
  unfolding service_stage
  service_stage-Moves name port group_id r =
      search (reads, get_or_create_service_template-Moves N P W, after_template-Moves) depth 12

  module _ (K : Kube) (Q : Preorder K.State) (unmarshal : String → Reply (List String)) where
    dns_name_for-Moves :
        (host cilium_ip name : String) → Moves P (dns_name_for N K unmarshal host cilium_ip name)
    dns_name_for-Moves host cilium_ip name =
        search (reads, get_dns_name_from_prefix-Moves N P) depth 12

    record_cilium_ip-Moves :
        (name host : String) (group_id : ℕ) (r : SyncStatusResult) (ip : Reply String)
        → Moves P (record_cilium_ip N K unmarshal name host group_id r ip)
    record_cilium_ip-Moves name host group_id r (bad e) = Moves-pure _
    record_cilium_ip-Moves name host group_id r (good ip) =
        search (reads, dns_name_for-Moves, get_or_create_ip_address-Moves N P W) depth 12

    cilium_stage-Moves :
        (namespace name host : String) (group_id : ℕ) (r : SyncStatusResult)
        → Moves (both P Q) (cilium_stage N K unmarshal namespace name host group_id r)
    unfolding cilium_stage
    cilium_stage-Moves namespace name host group_id r =
        search (reads, get_kamaji_control_plane_ip-Moves K Q, record_cilium_ip-Moves) depth 12

    record_tailscale-Moves :
        (group_id : ℕ) (r : SyncStatusResult) (dev : Reply TailscaleDevice)
        → Moves P (record_tailscale N K unmarshal group_id r dev)
    record_tailscale-Moves group_id r (bad e) = Moves-pure _
    record_tailscale-Moves group_id r (good dev) =
        search (reads, sync_tailscale_ipam-Moves) depth 12

    tailscale_stage-Moves :
        (namespace name : String) (group_id : ℕ) (r : SyncStatusResult)
        → Moves (both P Q) (tailscale_stage N K unmarshal namespace name group_id r)
    unfolding tailscale_stage
    tailscale_stage-Moves namespace name group_id r =
        search (reads, get_kamaji_tailscale_device-Moves K unmarshal Q, record_tailscale-Moves)
          depth 12

    then_tailscale-Moves :
        (namespace name : String) (group_id : ℕ) (step : Step)
        → Moves (both P Q) (then_tailscale N K unmarshal namespace name group_id step)
    then_tailscale-Moves namespace name group_id (stop r) = Moves-pure _
    then_tailscale-Moves namespace name group_id (go_on r) =
        search (reads, tailscale_stage-Moves) depth 12

    pub managed_stage-Moves :
        (namespace : String) (c : NbCluster) (host : String) (group_id : ℕ) (r : SyncStatusResult)
        → Moves (both P Q) (managed_stage N K unmarshal namespace c host group_id r)
    unfolding managed_stage
    managed_stage-Moves namespace c host group_id r =
        search (reads, cilium_stage-Moves, then_tailscale-Moves) depth 12
