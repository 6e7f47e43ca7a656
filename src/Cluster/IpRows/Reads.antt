-- ===== src/Cluster/IpRows/Reads.antt =====
-- ipaddr.go: what the report of addresses does to NetBox and Kubernetes.
use machinecfg.Prelude.{String, ◌≡◌, List, [], ◌∷◌, nat_eq, string_eq}
use machinecfg.Effect.{Reply, good, bad}
use machinecfg.Effect.Moves.{
  Moves, Preorder, keeps, both, reads, Moves-pure, Moves-bind, Moves-if, Moves-on_left,
  Moves-nothing,
}
use machinecfg.Netbox.{Netbox}
use machinecfg.Kube.{Kube}
use machinecfg.Cluster.Tailscale.{TailscaleDevice}
use machinecfg.Cluster.Tailscale.Reads.{get_tailscale_device-Moves}
use machinecfg.Cluster.IpRows.{
  known_status, get_netbox_ip_status, cilium_rows, tailscale_rows, exposed_rows, rows_of_objects,
  show_ip_addresses, World,
}

module _ (N : Netbox) (P : Preorder N.State) where
  known_status-Moves : (ip : String) → Moves P (known_status N ip)
  unfolding get_netbox_ip_status
  known_status-Moves ip = search reads depth 14

  cilium_rows-Moves : (name : String) (ips : List String) → Moves P (cilium_rows N name ips)
  unfolding cilium_rows
  cilium_rows-Moves name [] = Moves-pure _
  cilium_rows-Moves name (ip ∷ ips) =
      Moves-bind _ _ (known_status-Moves ip)
        λ status. Moves-bind _ _ (cilium_rows-Moves name ips) λ rest. Moves-pure _

  tailscale_rows-Moves :
      (name : String) (r : Reply TailscaleDevice) → Moves P (tailscale_rows N name r)
  tailscale_rows-Moves name (bad e) = Moves-pure _
  tailscale_rows-Moves name (good dev) = search (reads, known_status-Moves) depth 12

module _ (N : Netbox) (K : Kube) (unmarshal : String → Reply (List String)) (P : Preorder N.State)
    (Q : Preorder K.State) where
  exposed_rows-Moves :
      (namespace name : String) (obj : K.Object)
      → Moves (both P Q) (exposed_rows N K unmarshal namespace name obj)
  exposed_rows-Moves namespace name obj =
      search (reads, get_tailscale_device-Moves K unmarshal Q, tailscale_rows-Moves N P) depth 14

  rows_of_objects-Moves :
      (namespace : String) (cluster_names : List String) (objs : List K.Object)
      → Moves (both P Q) (rows_of_objects N K unmarshal namespace cluster_names objs)
  unfolding rows_of_objects
  rows_of_objects-Moves namespace cluster_names [] = Moves-pure _
  rows_of_objects-Moves namespace cluster_names (obj ∷ objs) =
      Moves-bind _ _
        (Moves-if _ _ _
          (Moves-bind _ _ (Moves-on_left P Q _ (cilium_rows-Moves N P _ _))
            λ cilium. Moves-bind _ _ (exposed_rows-Moves namespace _ obj) λ tailscale. Moves-pure _)
          (Moves-pure _))
        λ rows.
          Moves-bind _ _ (rows_of_objects-Moves namespace cluster_names objs) λ rest. Moves-pure _

  show_ip_addresses-Moves :
      (namespace : String) (cluster_names : List String)
      → Moves (both P Q) (show_ip_addresses N K unmarshal namespace cluster_names)
  unfolding show_ip_addresses
  show_ip_addresses-Moves namespace cluster_names =
      Moves-bind _ _ (search reads depth 12)
        λ items. rows_of_objects-Moves namespace cluster_names items

-- The report of the addresses changes neither NetBox nor Kubernetes, however it ends.
pub show_ip_addresses-changes_nothing :
    (N : Netbox) (K : Kube) (unmarshal : String → Reply (List String)) (namespace : String)
    (cluster_names : List String) (w : World N K unmarshal)
    → (show_ip_addresses N K unmarshal namespace cluster_names w).1 ≡ w
show_ip_addresses-changes_nothing N K unmarshal namespace cluster_names w =
    Moves-nothing
      (show_ip_addresses-Moves N K unmarshal (keeps (λ s. s)) (keeps (λ s. s)) namespace
        cluster_names)
      w
