-- ===== src/Cluster/Tailscale/Reads.antt =====
-- tailscale.go: what the look-ups of Tailscale devices do to Kubernetes.
use machinecfg.Prelude.{String, List, [], ◌∷◌, string_eq}
use machinecfg.Effect.{Reply, good, bad}
use machinecfg.Effect.Moves.{Moves, Preorder, reads}
use machinecfg.Kube.{Kube}
use machinecfg.Cluster.Tailscale.{
  get_tailscale_device, get_kamaji_tailscale_device, device_of_first, device_if_exposed,
  device_of_stateful_set,
}

module _ (K : Kube) (unmarshal : String → Reply (List String)) (P : Preorder K.State) where
  device_of_stateful_set-Moves : (name : String) → Moves P (device_of_stateful_set K unmarshal name)
  device_of_stateful_set-Moves name = search reads depth 12

  device_of_first-Moves :
      (what : String) (items : List K.Object) → Moves P (device_of_first K unmarshal what items)
  device_of_first-Moves what [] = search reads depth 12
  device_of_first-Moves what (ss ∷ items) = device_of_stateful_set-Moves (K.object_name ss)

  pub get_tailscale_device-Moves :
      (name namespace : String) → Moves P (get_tailscale_device K unmarshal name namespace)
  unfolding get_tailscale_device
  get_tailscale_device-Moves name namespace = search (reads, device_of_first-Moves) depth 12

  device_if_exposed-Moves :
      (namespace name : String) (r : Reply K.Object)
      → Moves P (device_if_exposed K unmarshal namespace name r)
  device_if_exposed-Moves namespace name (bad e) = search reads depth 12
  device_if_exposed-Moves namespace name (good kcp) =
      search (reads, get_tailscale_device-Moves) depth 12

  pub get_kamaji_tailscale_device-Moves :
      (namespace name : String) → Moves P (get_kamaji_tailscale_device K unmarshal namespace name)
  unfolding get_kamaji_tailscale_device
  get_kamaji_tailscale_device-Moves namespace name =
      search (reads, device_if_exposed-Moves) depth 12
