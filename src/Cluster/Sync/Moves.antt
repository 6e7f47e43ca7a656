-- ===== src/Cluster/Sync/Moves.antt =====
-- sync_status.go: how a run of `SyncStatus` moves NetBox and Kubernetes.
use machinecfg.Prelude.{
  ℕ, String, ◌≡◌, List, [], ◌∷◌, Bool, Option, none, some, ◌==◌, nat_eq, string_eq, Bool-cases, inl,
  inr,
}
use machinecfg.Effect.{Reply, good, bad, Exec, on_left, on_right}
use machinecfg.Effect.Moves.{
  Moves, Preorder, keeps, anyhow, both, reads, Moves-pure, Moves-tell, Moves-bind, Moves-attempt,
  Moves-if, Moves-wrap, Moves-on_left, Moves-on_right,
}
use machinecfg.Netbox.{Netbox, NbCluster, FhrpGroup, FhrpGroupRequest}
use machinecfg.Kube.{Kube}
use machinecfg.Cluster.Reads.{
  get_capi_cluster_endpoint-Moves, get_headnode_endpoint-Moves, get_next_fhrp_group_id-Moves,
}
use machinecfg.Cluster.Names.{managed_type_slug, standalone_type_slug}
use machinecfg.Cluster.Endpoint.{get_capi_cluster_endpoint, get_headnode_endpoint}
use machinecfg.Cluster.Records.{get_or_create_fhrp_group}
use machinecfg.Cluster.Records.Moves.{Writes, anyhow-Writes}
use machinecfg.Cluster.Sync.Steps.{SyncStatusResult, Step, go_on, stop}
use machinecfg.Cluster.Sync.Steps.Moves.{managed_stage-Moves, service_stage-Moves}
use machinecfg.Cluster.Sync.{
  World, sync_status, endpoint, then_services, round, sync_records, after_group, after_endpoint,
  sync_cluster, sync_clusters,
}

-- The look-up of an endpoint is that of a managed cluster, that of a standalone one, or none.
module _ (N : Netbox) (K : Kube) (unmarshal : String → Reply (List String)) where
  pub endpoint-elim :
      (T : Option (Exec (World N K unmarshal) (String × ℕ)) → Type 0) (namespace : String)
      (c : NbCluster)
      → T none
      → T (some (on_right (get_capi_cluster_endpoint K namespace c.name)))
      → T (some (on_left (get_headnode_endpoint N c.id)))
      → T (endpoint N K unmarshal namespace c)
  unfolding endpoint
  endpoint-elim T namespace c skipped managed standalone =
      elim (Bool-cases (c.type_slug == managed_type_slug)) [
        | inl e ↦ rw e managed
        | inr e ↦ elim (Bool-cases (c.type_slug == standalone_type_slug)) [
          | inl e' ↦ rw (e, e') standalone
          | inr e' ↦ rw (e, e') skipped
        ]
      ]

module _ (N : Netbox) (K : Kube) (unmarshal : String → Reply (List String)) (P : Preorder N.State)
    (Q : Preorder K.State) (W : Writes N P) where
  then_services-Moves :
      (c : NbCluster) (port : ℕ) (group : FhrpGroup) (step : Step)
      → Moves (both P Q) (then_services N K unmarshal c port group step)
  then_services-Moves c port group (stop r) = Moves-pure _
  then_services-Moves c port group (go_on r) =
      Moves-on_left P Q _ (service_stage-Moves N P W c.name port group.id r)

  pub sync_records-Moves :
      (namespace : String) (c : NbCluster) (host : String) (port : ℕ) (group : FhrpGroup)
      (r : SyncStatusResult)
      → Moves (both P Q) (sync_records N K unmarshal namespace c host port group r)
  unfolding sync_records
  sync_records-Moves namespace c host port group r =
      search (reads, managed_stage-Moves N P W K Q unmarshal, then_services-Moves) depth 12

  after_group-Moves :
      (namespace : String) (c : NbCluster) (host : String) (port next_id : ℕ)
      (o : Reply (FhrpGroup × Bool))
      → Moves (both P Q) (after_group N K unmarshal namespace c host port next_id o)
  after_group-Moves namespace c host port next_id (bad e) = Moves-pure _
  after_group-Moves namespace c host port next_id (good (group, created)) =
      search (reads, sync_records-Moves) depth 12

  module _
      (creates : (r : FhrpGroupRequest) (s : N.State) → P.rel s (N.fhrp_groups_create r s).1) where
    get_or_create_fhrp_group-Moves :
        (name : String) (group_id : ℕ) → Moves P (get_or_create_fhrp_group N name group_id)
    unfolding get_or_create_fhrp_group
    get_or_create_fhrp_group-Moves name group_id = search (reads, Moves-tell, creates) depth 12

    after_endpoint-Moves :
        (namespace : String) (c : NbCluster) (next_id : ℕ) (o : Reply (String × ℕ))
        → Moves (both P Q) (after_endpoint N K unmarshal namespace c next_id o)
    after_endpoint-Moves namespace c next_id (bad e) = Moves-pure _
    after_endpoint-Moves namespace c next_id (good (host, port)) =
        search (reads, get_or_create_fhrp_group-Moves, after_group-Moves) depth 12

    round-Moves :
        (namespace : String) (c : NbCluster) (next_id : ℕ)
        (m : Exec (World N K unmarshal) (String × ℕ))
        → Moves (both P Q) m
        → Moves (both P Q) (round N K unmarshal namespace c next_id (some m))
    round-Moves namespace c next_id m h =
        Moves-bind _ _ (Moves-attempt _ h)
          λ found. Moves-bind _ _ (after_endpoint-Moves namespace c next_id found) λ a. Moves-pure _

    sync_cluster-Moves :
        (namespace : String) (c : NbCluster) (next_id : ℕ)
        → Moves (both P Q) (sync_cluster N K unmarshal namespace c next_id)
    unfolding sync_cluster
    sync_cluster-Moves namespace c next_id =
        endpoint-elim N K unmarshal
          (λ found. Moves (both P Q) (round N K unmarshal namespace c next_id found)) namespace c
          (Moves-pure _)
          (round-Moves namespace c next_id _
            (Moves-on_right P Q _ (get_capi_cluster_endpoint-Moves K Q namespace c.name)))
          (round-Moves namespace c next_id _
            (Moves-on_left P Q _ (get_headnode_endpoint-Moves N P c.id)))

    sync_clusters-Moves :
        (namespace : String) (cs : List NbCluster) (next_id : ℕ)
        → Moves (both P Q) (sync_clusters N K unmarshal namespace cs next_id)
    unfolding sync_clusters
    sync_clusters-Moves namespace [] next_id = Moves-pure _
    sync_clusters-Moves namespace (c ∷ cs) next_id =
        Moves-bind _ _ (sync_cluster-Moves namespace c next_id)
          λ a. Moves-bind _ _ (sync_clusters-Moves namespace cs a.1) λ rest. Moves-pure _

    pub sync_status-Moves :
        (namespace : String) (cluster_names : List String)
        → Moves (both P Q) (sync_status N K unmarshal namespace cluster_names)
    unfolding sync_status
    sync_status-Moves namespace cluster_names = Moves-bind _ _ (search reads depth 12) λ page.
        Moves-if _ _ _ (Moves-pure _) (
          Moves-bind _ _ (Moves-wrap _ _ (Moves-on_left P Q _ (get_next_fhrp_group_id-Moves N P)))
            λ next_id. sync_clusters-Moves namespace page.results next_id)

-- `SyncStatus` never writes to Kubernetes: however the run ends, and whatever NetBox and
-- Kubernetes answer, the state of Kubernetes after it is the state before it.
pub sync_status-keeps_kubernetes :
    (N : Netbox) (K : Kube) (unmarshal : String → Reply (List String)) (namespace : String)
    (cluster_names : List String) (w : World N K unmarshal)
    → (sync_status N K unmarshal namespace cluster_names w).1.1 ≡ w.1
sync_status-keeps_kubernetes N K unmarshal namespace cluster_names w =
    let moved =
      sync_status-Moves N K unmarshal anyhow (keeps (λ s. s)) (anyhow-Writes N) (λ r s. tt)
        namespace cluster_names in
    (moved.at w).1
