-- ===== src/Cluster/Sync.antt =====
-- sync_status.go: `SyncStatus`, which writes the endpoints of clusters back to NetBox.
pub mod Steps
pub mod Moves
pub mod Groups
pub mod Laws
use machinecfg.Prelude.{
  ℕ, ◌+◌, ◌%◌, String, ◌<>◌, Bool, true, false, not, ◌||◌, Option, none, some, List, [], ◌∷◌, ◌++◌,
  ◌==◌, nat_eq, string_eq, if◌then◌else◌,
}
use machinecfg.Effect.{Exec, Reply, good, bad, pure, ask, attempt, wrap, on_left, on_right, ◌>>=◌}
use machinecfg.Text.{int32_mod}
use machinecfg.Netbox.{Netbox, Param, NbCluster, FhrpGroup}
use machinecfg.Kube.{Kube}
use machinecfg.Common.Filters.{given}
use machinecfg.Cluster.Names.{managed_type_slug, standalone_type_slug}
use machinecfg.Cluster.Endpoint.{get_capi_cluster_endpoint, get_headnode_endpoint}
use machinecfg.Cluster.Records.{get_next_fhrp_group_id, get_or_create_fhrp_group}
use machinecfg.Cluster.Sync.Steps.{
  SyncStatusResult, failed, named, Step, go_on, stop, result_of, managed_stage, service_stage,
}

abbrev pub cluster_params : List String → List Param
cluster_params cluster_names =
    Param.type_slug (managed_type_slug ∷ standalone_type_slug ∷ [])
    ∷ (if given cluster_names then Param.name cluster_names ∷ [] else [])

module _ (N : Netbox) (K : Kube) (unmarshal_strings : String → Reply (List String)) where
  abbrev pub World : Type 0
  World = N.State × K.State

  -- The `switch` on the type of the cluster; none is its `default`, which skips the cluster.
  unfoldable pub endpoint : String → NbCluster → Option (Exec World (String × ℕ))
  endpoint namespace c =
      if c.type_slug == managed_type_slug
      then some (on_right (get_capi_cluster_endpoint K namespace c.name))
      else if c.type_slug == standalone_type_slug
      then some (on_left (get_headnode_endpoint N c.id))
      else none

  abbrev then_services : NbCluster → ℕ → FhrpGroup → Step → Exec World SyncStatusResult
  then_services c port group (stop r) = pure r
  then_services c port group (go_on r) = on_left (service_stage N c.name port group.id r)

  -- What follows once the group of the cluster is known.
  unfoldable pub sync_records :
      String → NbCluster → String → ℕ → FhrpGroup → SyncStatusResult → Exec World SyncStatusResult
  sync_records namespace c host port group r = do
    step ← managed_stage N K unmarshal_strings namespace c host group.id r
    then_services c port group step

  abbrev after_group :
      String
      → NbCluster
      → String
      → ℕ
      → ℕ
      → Reply (FhrpGroup × Bool)
      → Exec World (SyncStatusResult × ℕ)
  after_group namespace c host port next_id (bad e) = pure (failed (named c.name) e, next_id)
  after_group namespace c host port next_id (good (group, created)) = do
    r ←
        sync_records namespace c host port group
          (record (named c.name) { updated = created; fhrp_group_id = group.id })
    pure (r, if created then (next_id + 1) % int32_mod else next_id)

  abbrev after_endpoint :
      String → NbCluster → ℕ → Reply (String × ℕ) → Exec World (SyncStatusResult × ℕ)
  after_endpoint namespace c next_id (bad e) = pure (failed (named c.name) e, next_id)
  after_endpoint namespace c next_id (good (host, port)) = do
    group ← attempt (on_left (get_or_create_fhrp_group N c.name next_id))
    after_group namespace c host port next_id group

  abbrev round :
      String
      → NbCluster
      → ℕ
      → Option (Exec World (String × ℕ))
      → Exec World (List SyncStatusResult × ℕ)
  round namespace c next_id none = pure ([], next_id)
  round namespace c next_id (some lookup_endpoint) = do
    found ← attempt lookup_endpoint
    (r, next) ← after_endpoint namespace c next_id found
    pure (r ∷ [], next)

  -- The body of the loop: the results of the cluster, one or none, and the next free group number.
  unfoldable pub sync_cluster : String → NbCluster → ℕ → Exec World (List SyncStatusResult × ℕ)
  sync_cluster namespace c next_id = round namespace c next_id (endpoint namespace c)

  unfoldable pub sync_clusters : String → List NbCluster → ℕ → Exec World (List SyncStatusResult)
  sync_clusters namespace [] next_id = pure []
  sync_clusters namespace (c ∷ cs) next_id = do
    (r, next) ← sync_cluster namespace c next_id
    rest ← sync_clusters namespace cs next
    pure (r ++ rest)

  unfoldable pub sync_status : String → List String → Exec World (List SyncStatusResult)
  sync_status namespace cluster_names = do
    netbox_clusters ←
        wrap (λ t. "cannot list NetBox clusters: " <> t)
          (on_left (ask (N.clusters_list (cluster_params cluster_names))))
    if netbox_clusters.count == 0 then pure [] else (do
      next_id ←
          wrap (λ t. "cannot determine next FHRP group ID: " <> t)
            (on_left (get_next_fhrp_group_id N))
      sync_clusters namespace netbox_clusters.results next_id)
