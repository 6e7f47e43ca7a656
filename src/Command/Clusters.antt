-- ===== src/Command/Clusters.antt =====
-- cluster_show.go, cluster_ipaddr.go and cluster_sync_status.go: the commands on clusters.
-- `connect` stands for `getK8sClient`, the `marshal` functions for `json.Marshal`.
use machinecfg.Prelude.{String, List, [], ◌∷◌, map, false, string_eq}
use machinecfg.Effect.{Exec, Reply, wrap, ◌>>=◌}
use machinecfg.Text.{itoa, join}
use machinecfg.Netbox.{Netbox}
use machinecfg.Kube.{Kube}
use machinecfg.Cluster.Show.{ClusterRow, show}
use machinecfg.Cluster.IpRows.{IpAddressRow, show_ip_addresses}
use machinecfg.Cluster.Sync.Steps.{SyncStatusResult}
use machinecfg.Cluster.Sync.{sync_status}
use machinecfg.Command.Arguments.{Environment, process_root_args, get_namespace}
use machinecfg.Command.Run.{CommandFlags, or_exit, or_fatal, printed, bool_text, line}

abbrev pub cluster_line : ClusterRow → String
cluster_line r = line (
    r.name
    ∷ r.type_slug
    ∷ r.netbox_status
    ∷ r.capi_ready
    ∷ itoa r.device_count
    ∷ join ", " r.devices
    ∷ [])

abbrev pub cluster_table : List ClusterRow → List String
cluster_table rows =
    line ("NAME" ∷ "TYPE" ∷ "NETBOX-STATUS" ∷ "CAPI-READY" ∷ "DEVICE-COUNT" ∷ "DEVICES" ∷ [])
    ∷ map cluster_line rows

abbrev pub address_line : IpAddressRow → String
address_line r =
    line (
      r.cluster_name ∷ r.ip_address ∷ r.source ∷ bool_text r.netbox_assigned ∷ r.netbox_status ∷ [])

abbrev pub address_table : List IpAddressRow → List String
address_table rows =
    line ("CLUSTER" ∷ "IP-ADDRESS" ∷ "SOURCE" ∷ "NETBOX-ASSIGNED" ∷ "NETBOX-STATUS" ∷ [])
    ∷ map address_line rows

abbrev pub sync_line : SyncStatusResult → String
sync_line r = line (
    r.cluster_name
    ∷ itoa r.fhrp_group_id
    ∷ itoa r.ip_address_id
    ∷ itoa r.service_id
    ∷ r.tailscale_address
    ∷ bool_text r.updated
    ∷ r.error
    ∷ [])

abbrev pub sync_table : List SyncStatusResult → List String
sync_table results =
    line (
      "CLUSTER" ∷ "FHRP-GROUP-ID" ∷ "IP-ADDRESS-ID" ∷ "SERVICE-ID" ∷ "TAILSCALE-ADDRESS" ∷ "UPDATED"
      ∷ "ERROR" ∷ [])
    ∷ map sync_line results

module _ {Client : Type 0} (N : Netbox) (K : Kube) (unmarshal : String → Reply (List String))
    (connect : String → Reply Client) (env : Environment) (flags : CommandFlags) where
  abbrev World : Type 0
  World = N.State × K.State

  -- What the three commands have in common: the arguments without a filter of devices, the
  -- namespace and the client, and then the function of the package, of which the rows are printed.
  abbrev run_on_clusters :
      {Row : Type 0}
      → (String → List String → Exec World (List Row))
      → String
      → (List Row → Reply String)
      → (List Row → List String)
      → Exec World (List String)
  run_on_clusters act message marshal table = do
    args ← or_exit (process_root_args flags.root env false (false ∷ []))
    namespace ← or_exit (get_namespace flags.root)
    client ← or_fatal "no k8s configuration found" (connect flags.kubeconfig)
    rows ← wrap (λ t. message) (act namespace args.filters.clusters)
    printed flags.output (marshal rows) (table rows)

  unfoldable pub cluster_show : (List ClusterRow → Reply String) → Exec World (List String)
  unfolding show process_root_args get_namespace
  cluster_show marshal = run_on_clusters (show N K) "failed to show clusters" marshal cluster_table

  unfoldable pub ipaddr_show : (List IpAddressRow → Reply String) → Exec World (List String)
  unfolding show_ip_addresses process_root_args get_namespace
  ipaddr_show marshal =
      run_on_clusters (show_ip_addresses N K unmarshal) "failed to show IP addresses" marshal
        address_table

  unfoldable pub cluster_sync_status :
      (List SyncStatusResult → Reply String) → Exec World (List String)
  unfolding sync_status process_root_args get_namespace
  cluster_sync_status marshal =
      run_on_clusters (sync_status N K unmarshal) "failed to sync cluster status" marshal sync_table
