-- ===== src/Cluster/Tailscale/Answers.antt =====
-- tailscale.go: how the readers of Kubernetes objects end.
use machinecfg.Prelude.{ℕ, String, not, ◌&&◌, List, [], ◌∷◌, string_eq}
use machinecfg.Effect.{Reply, good, bad}
use machinecfg.Effect.Meets.{
  ask-Meets, Meets, Meets-pure, Meets-if, Meets-wrap, Meets-raise, Meets-attempt, Meets-bind,
  Anything,
}
use machinecfg.Netbox.{Netbox}
use machinecfg.Netbox.Pages.{HasPages}
use machinecfg.Kube.{Kube}
use machinecfg.Cluster.Endpoint.{get_capi_cluster_endpoint}
use machinecfg.Cluster.Records.Answers.{
  get_or_create_ip_address-Meets, get_or_create_ipam_prefix-Meets,
}
use machinecfg.Cluster.Tailscale.{
  TailscaleDevice, is_tailscale_exposed, device_of_secret, device_of_first, get_tailscale_device,
  device_if_exposed, get_kamaji_tailscale_device, sync_tailscale_ipam,
}

module _ (K : Kube) where
  pub get_capi_cluster_endpoint-Meets :
      (namespace name : String) → Meets Unit Anything (get_capi_cluster_endpoint K namespace name)
  unfolding get_capi_cluster_endpoint
  get_capi_cluster_endpoint-Meets namespace name =
      Meets-bind _ _ (Meets-wrap _ _ (ask-Meets _)) λ x _. Meets-pure _ tt

module _ (K : Kube) (unmarshal_strings : String → Reply (List String)) where
  device_of_first-Meets :
      (what : String) (items : List K.Object)
      → Meets Unit Anything (device_of_first K unmarshal_strings what items)
  device_of_first-Meets what [] = Meets-raise _
  device_of_first-Meets what (ss ∷ items) =
      Meets-bind _ _ (Meets-wrap _ _ (ask-Meets _)) λ secret _.
        let dev = device_of_secret K unmarshal_strings secret in
        Meets-if (string_eq.beq dev.ip "" && string_eq.beq dev.fqdn "") _ _ (λ _. Meets-raise _)
          (λ _. Meets-pure _ tt)

  get_tailscale_device-Meets :
      (name namespace : String)
      → Meets Unit Anything (get_tailscale_device K unmarshal_strings name namespace)
  unfolding get_tailscale_device
  get_tailscale_device-Meets name namespace =
      Meets-bind _ _ (Meets-wrap _ _ (ask-Meets _)) λ items _. device_of_first-Meets _ items

  device_if_exposed-Meets :
      (namespace name : String) (r : Reply K.Object)
      → Meets Unit Anything (device_if_exposed K unmarshal_strings namespace name r)
  device_if_exposed-Meets namespace name (bad e) = Meets-pure _ tt
  device_if_exposed-Meets namespace name (good kcp) =
      Meets-if (not (is_tailscale_exposed K unmarshal_strings kcp).0) _ _ (λ _. Meets-pure _ tt)
        (λ _. get_tailscale_device-Meets name namespace)

  pub get_kamaji_tailscale_device-Meets :
      (namespace name : String)
      → Meets Unit Anything (get_kamaji_tailscale_device K unmarshal_strings namespace name)
  unfolding get_kamaji_tailscale_device
  get_kamaji_tailscale_device-Meets namespace name =
      Meets-bind _ _ (Meets-attempt _ _ (ask-Meets _))
        λ r _. device_if_exposed-Meets namespace name r

pub sync_tailscale_ipam-Meets :
    (N : Netbox)
    → HasPages N
    → (group_id : ℕ) (dev : TailscaleDevice)
    → Meets Unit Anything (sync_tailscale_ipam N group_id dev)
unfolding sync_tailscale_ipam
sync_tailscale_ipam-Meets N pages group_id dev =
    Meets-if (string_eq.beq dev.ip "") _ _ (λ _. Meets-raise _)
      (λ _.
        Meets-bind _ _ (Meets-attempt _ _ (get_or_create_ipam_prefix-Meets N pages _))
          λ r _. get_or_create_ip_address-Meets N pages _ _ _)
