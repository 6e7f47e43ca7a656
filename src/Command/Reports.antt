-- ===== src/Command/Reports.antt =====
-- The table of `cluster sync-status`, from the flags to the lines.
use machinecfg.Prelude.{◌<◌, String, ◌≡◌, refl, some, false, List, [], ◌∷◌, ◌==◌, string_eq}
use machinecfg.Effect.{ok, Reply, good, ◌>>=◌}
use machinecfg.Netbox.{Netbox, Page, NbCluster, FhrpGroup}
use machinecfg.Netbox.Pages.{HasPages}
use machinecfg.Kube.{Kube}
use machinecfg.Cluster.Records.{highest_group}
use machinecfg.Cluster.Sync.Steps.{SyncStatusResult}
use machinecfg.Cluster.Sync.{cluster_params}
use machinecfg.Cluster.Sync.Laws.{names_of, kubernetes_names, sync_status-reports}
use machinecfg.Command.Arguments.{Environment, ConfigurationArgs, process_root_args, get_namespace}
use machinecfg.Command.Run.{CommandFlags}
use machinecfg.Command.Clusters.{cluster_sync_status, sync_table}

-- With flags that are accepted, a namespace, a Kubernetes client and another output than JSON, if
-- the lists of clusters and of groups are answered, count something and every list that counts an
-- object shows one, the command returns and prints the table of exactly one result for each
-- listed cluster of one of the two Kubernetes types, in the order of the list.
pub cluster_sync_status-reports :
    {Client : Type 0} (N : Netbox) (K : Kube) (unmarshal : String → Reply (List String))
    (connect : String → Reply Client) (env : Environment) (flags : CommandFlags)
    (marshal : List SyncStatusResult → Reply String) (args : ConfigurationArgs) (namespace : String)
    (client : Client) (w : N.State × K.State) {page : Page NbCluster} {groups : Page FhrpGroup}
    → HasPages N
    → process_root_args flags.root env false (false ∷ []) ≡ some args
    → get_namespace flags.root ≡ some namespace
    → connect flags.kubeconfig ≡ good client
    → (flags.output == "json") ≡ false
    → N.clusters_list (cluster_params args.filters.clusters) w.0 ≡ good page
    → N.fhrp_groups_list highest_group w.0 ≡ good groups
    → 0 < page.count
    → (rs : List SyncStatusResult) × ((cluster_sync_status N K unmarshal connect env flags marshal
          w).0
        ≡ ok (sync_table rs))
      × (names_of rs ≡ kubernetes_names page.results)
unfolding cluster_sync_status ◌>>=◌
cluster_sync_status-reports N K unmarshal connect env flags marshal args namespace client w pages
      accepted named connected no_json listed grouped counted =
    let (rs, synced, reported) =
      sync_status-reports N K unmarshal pages namespace args.filters.clusters w listed grouped
        counted in
    (rs, rw (accepted, named, connected, synced, no_json) refl, reported)
