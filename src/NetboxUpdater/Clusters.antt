-- ===== src/NetboxUpdater/Clusters.antt =====
-- cluster_reconciler.go: a change of a cluster runs `SyncStatus` for it.
pub mod Moves
use machinecfg.Prelude.{
  String, ◌<>◌, Bool, true, false, not, Option, none, some, List, [], ◌∷◌, ◌==◌, string_eq,
  if◌then◌else◌,
}
use machinecfg.Effect.{
  Exec, Reply, good, bad, Error, ErrorKind, pure, raise, ask, tell, attempt, on_right, ◌>>=◌, ◌>>◌,
}
use machinecfg.Netbox.{Netbox}
use machinecfg.Kube.{Kube}
use machinecfg.Cluster.Names.{capi_cluster_gvk}
use machinecfg.Cluster.Sync.Steps.{SyncStatusResult}
use machinecfg.Cluster.Sync.{sync_status}

module _ (N : Netbox) (K : Kube) (unmarshal_strings : String → Reply (List String)) where
  abbrev World : Type 0
  World = N.State × K.State

  abbrev record_event : String → String → String → Exec World (Unit {0})
  record_event type reason message =
      on_right (tell (λ s. (good tt, K.record_event type reason message s)))

  -- The events of the results: a warning for an error, a note for a change.
  unfoldable pub report_results : List SyncStatusResult → Exec World (Unit {0})
  report_results [] = pure tt
  report_results (r ∷ rs) = do
    if not (r.error == "")
        then record_event "Warning" "NetBoxSyncFailed" ("NetBox sync error: " <> r.error)
        else if r.updated
        then record_event "Normal" "NetBoxUpdated" "NetBox cluster records updated"
        else pure tt
    report_results rs

  abbrev after_sync : String → Reply (List SyncStatusResult) → Exec World Bool
  after_sync name (bad e) = do
    record_event "Warning" "NetBoxSyncFailed" ("NetBox sync failed: " <> e.text)
    raise (record e { text = "cannot sync cluster " <> name <> " to NetBox: " <> e.text })
  after_sync name (good results) = do report_results results; pure false

  abbrev get_failed : String → String → ErrorKind → Error → Exec World Bool
  get_failed namespace name ErrorKind.not_found e = pure false
  get_failed namespace name ErrorKind.already_exists e =
      raise (record e {
        text = "cannot get CAPI Cluster " <> namespace <> "/" <> name <> ": " <> e.text;
      })
  get_failed namespace name ErrorKind.other e =
      raise (record e {
        text = "cannot get CAPI Cluster " <> namespace <> "/" <> name <> ": " <> e.text;
      })

  abbrev sync_object : String → String → Reply K.Object → Exec World Bool
  sync_object namespace name (bad e) = get_failed namespace name e.kind e
  sync_object namespace name (good capi_cluster) = do
    results ←
        attempt (sync_status N K unmarshal_strings namespace (K.object_name capi_cluster ∷ []))
    after_sync name results

  abbrev with_client : {Client : Type 0} → String → String → Option Client → Exec World Bool
  with_client namespace name none = pure true
  with_client namespace name (some client) = do
    capi_cluster ← attempt (on_right (ask (K.get_object capi_cluster_gvk namespace name)))
    sync_object namespace name capi_cluster

  -- `ClusterReconciler.Reconcile`, which returns whether the object is put back in the queue.
  unfoldable pub reconcile_cluster :
      {Client : Type 0} → Option Client → String → String → Exec World Bool
  reconcile_cluster netbox_client namespace name = with_client namespace name netbox_client
