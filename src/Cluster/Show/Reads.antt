-- ===== src/Cluster/Show/Reads.antt =====
-- show.go: what the report of clusters does to NetBox and Kubernetes.
use machinecfg.Prelude.{ℕ, String, ◌≡◌, List, [], ◌∷◌, nat_eq, string_eq}
use machinecfg.Effect.Moves.{
  Moves, Preorder, keeps, both, reads, Moves-pure, Moves-bind, Moves-if, Moves-nothing,
}
use machinecfg.Netbox.{Netbox, NbCluster}
use machinecfg.Kube.{Kube}
use machinecfg.Cluster.Show.{
  get_capi_cluster_info, get_cluster_devices, get_cluster_vms, World, show_row, show_rows, show,
}

module _ (N : Netbox) (K : Kube) (P : Preorder N.State) (Q : Preorder K.State) where
  get_capi_cluster_info-Moves :
      (namespace name : String) → Moves Q (get_capi_cluster_info K namespace name)
  unfolding get_capi_cluster_info
  get_capi_cluster_info-Moves namespace name = search reads depth 12

  get_cluster_devices-Moves : (id : ℕ) → Moves P (get_cluster_devices N id)
  unfolding get_cluster_devices
  get_cluster_devices-Moves id = search reads depth 12

  get_cluster_vms-Moves : (id : ℕ) → Moves P (get_cluster_vms N id)
  unfolding get_cluster_vms
  get_cluster_vms-Moves id = search reads depth 12

  show_row-Moves :
      (namespace : String) (c : NbCluster) → Moves (both P Q) (show_row N K namespace c)
  unfolding show_row
  show_row-Moves namespace c =
      search (reads, get_cluster_devices-Moves, get_cluster_vms-Moves, get_capi_cluster_info-Moves)
        depth 14

  show_rows-Moves :
      (namespace : String) (cs : List NbCluster) → Moves (both P Q) (show_rows N K namespace cs)
  unfolding show_rows
  show_rows-Moves namespace [] = Moves-pure _
  show_rows-Moves namespace (c ∷ cs) =
      Moves-bind _ _ (show_row-Moves namespace c)
        λ row. Moves-bind _ _ (show_rows-Moves namespace cs) λ rows. Moves-pure _

  show-Moves :
      (namespace : String) (cluster_names : List String)
      → Moves (both P Q) (show N K namespace cluster_names)
  unfolding show
  show-Moves namespace cluster_names =
      Moves-bind _ _ (search reads depth 12)
        λ page. Moves-if _ _ _ (Moves-pure _) (show_rows-Moves namespace page.results)

-- The report of the clusters changes neither NetBox nor Kubernetes, however it ends.
pub show-changes_nothing :
    (N : Netbox) (K : Kube) (namespace : String) (cluster_names : List String) (w : World N K)
    → (show N K namespace cluster_names w).1 ≡ w
show-changes_nothing N K namespace cluster_names w =
    Moves-nothing (show-Moves N K (keeps (λ s. s)) (keeps (λ s. s)) namespace cluster_names) w
