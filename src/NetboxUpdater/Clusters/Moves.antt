-- ===== src/NetboxUpdater/Clusters/Moves.antt =====
-- cluster_reconciler.go: how a run of the reconciler moves NetBox.
use machinecfg.Prelude.{String, Option, none, some, List, [], ◌∷◌, string_eq}
use machinecfg.Effect.{Exec, Reply, good, bad, Error, ErrorKind}
use machinecfg.Effect.Moves.{Moves, Preorder, anyhow, both, reads, Moves-tell, Moves-on_right}
use machinecfg.Netbox.{Netbox}
use machinecfg.Kube.{Kube}
use machinecfg.Cluster.Sync.Steps.{SyncStatusResult}
use machinecfg.Cluster.Sync.{sync_status}
use machinecfg.NetboxUpdater.Clusters.{
  record_event, report_results, after_sync, get_failed, sync_object, reconcile_cluster,
}

module _ (N : Netbox) (K : Kube) (unmarshal : String → Reply (List String)) (P : Preorder N.State)
    (synced : (namespace : String) (names : List String)
      → Moves (both P anyhow) (sync_status N K unmarshal namespace names)) where
  abbrev Goes : {A : Type 0} → Exec (N.State × K.State) A → Type 0
  Goes m = Moves (both P anyhow) m

  told : (s : K.State) → Unit {0}
  told s = tt

  record_event-Moves :
      (type reason message : String) → Goes (record_event N K unmarshal type reason message)
  record_event-Moves type reason message = Moves-on_right P anyhow _ (Moves-tell _ told)

  report_results-step :
      (r : SyncStatusResult) (rs : List SyncStatusResult)
      → Goes (report_results N K unmarshal rs)
      → Goes (report_results N K unmarshal (r ∷ rs))
  unfolding report_results
  report_results-step r rs rest = search (reads, record_event-Moves) depth 12

  report_results-Moves : (rs : List SyncStatusResult) → Goes (report_results N K unmarshal rs)
  unfolding report_results
  report_results-Moves [] = search reads depth 4
  report_results-Moves (r ∷ rs) = report_results-step r rs (report_results-Moves rs)

  module _ (namespace name : String) where
    after_sync-Moves : (r : Reply (List SyncStatusResult)) → Goes (after_sync N K unmarshal name r)
    after_sync-Moves (bad e) = search (reads, record_event-Moves) depth 12
    after_sync-Moves (good results) = search (reads, report_results-Moves) depth 12

    get_failed-Moves :
        (kind : ErrorKind) (e : Error) → Goes (get_failed N K unmarshal namespace name kind e)
    get_failed-Moves ErrorKind.not_found e = search reads depth 4
    get_failed-Moves ErrorKind.already_exists e = search reads depth 4
    get_failed-Moves ErrorKind.other e = search reads depth 4

    sync_object-Moves :
        (capi_cluster : Reply K.Object)
        → Goes (sync_object N K unmarshal namespace name capi_cluster)
    sync_object-Moves (bad e) = get_failed-Moves e.kind e
    sync_object-Moves (good capi_cluster) = search (reads, synced, after_sync-Moves) depth 12

    pub reconcile_cluster-Moves :
        {Client : Type 0} (client : Option Client)
        → Moves (both P anyhow) (reconcile_cluster N K unmarshal client namespace name)
    unfolding reconcile_cluster
    reconcile_cluster-Moves none = search reads depth 4
    reconcile_cluster-Moves (some client) = search (reads, sync_object-Moves) depth 12
