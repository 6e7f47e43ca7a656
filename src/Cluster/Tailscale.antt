-- ===== src/Cluster/Tailscale.antt =====
-- tailscale.go: the endpoint of a cluster in a Tailscale network. `unmarshal_strings` stands for
-- `json.Unmarshal` into a list of texts.
pub mod Answers
pub mod Reads
use machinecfg.Prelude.{
  ℕ, ◌&&◌, String, ◌<>◌, Bool, false, not, Option, none, some, List, [], ◌∷◌, Dict, get_text, ◌==◌,
  nat_eq, string_eq, if◌then◌else◌,
}
use machinecfg.Effect.{Exec, Reply, good, bad, error, pure, raise, ask, attempt, wrap, ◌>>=◌}
use machinecfg.Text.{trim_space, trim_right}
use machinecfg.Netbox.{Netbox, IpAddress}
use machinecfg.Kube.{Kube}
use machinecfg.Cluster.Names.{
  kamaji_control_plane_gvk, stateful_set_list_gvk, tailscale_expose_annotation,
  tailscale_hostname_annotation, tailscale_namespace, tailscale_parent_resource_label,
  tailscale_parent_resource_ns_label,
}
use machinecfg.Cluster.Records.{get_or_create_ip_address, get_or_create_ipam_prefix}

pub record TailscaleDevice : Type 0 where
  pub ip : String
  pub fqdn : String

abbrev pub no_device : TailscaleDevice
no_device = record { ip = ""; fqdn = "" }

-- The name in the network if there is one, else the address.
unfoldable pub address : TailscaleDevice → String
address d = if not (d.fqdn == "") then d.fqdn else d.ip

abbrev pub annotations_path : List String
annotations_path = "spec" ∷ "network" ∷ "serviceAnnotations" ∷ []

-- `annotations, _, _ := NestedStringMap(…)`: an empty map where there is none
abbrev pub map_or_empty : Reply (Option (Dict String)) → Dict String
map_or_empty (good (some m)) = m
map_or_empty (good none) = []
map_or_empty (bad e) = []

-- `json.Unmarshal` succeeded and the list is not empty: its first text.
abbrev first_text : Reply (List String) → String
first_text (good (ip ∷ ips)) = ip
first_text (good []) = ""
first_text (bad e) = ""

module _ (K : Kube) (unmarshal_strings : String → Reply (List String)) where
  unfoldable pub is_tailscale_exposed : K.Object → Bool × String
  is_tailscale_exposed kcp =
      let annotations = map_or_empty (K.nested_string_map kcp annotations_path) in
      let hostname = get_text annotations tailscale_hostname_annotation in
      if not (get_text annotations tailscale_expose_annotation == "true")
      then (false, "")
      else (not (hostname == ""), hostname)

  -- The device in the state Secret; an empty value counts as no value.
  unfoldable pub device_of_secret : Dict String → TailscaleDevice
  unfolding trim_space trim_right
  device_of_secret secret =
      let raw = get_text secret "device_ips" in
      record {
        ip = if raw == "" then "" else first_text (unmarshal_strings raw);
        fqdn = trim_right (λ c. c == 46) (trim_space (get_text secret "device_fqdn"));
      }

  abbrev device_of_stateful_set : String → Exec K.State TailscaleDevice
  device_of_stateful_set ss_name = do
    secret ←
        wrap
          (λ t.
            "cannot get Tailscale state Secret "
            <> tailscale_namespace
            <> "/"
            <> (ss_name <> "-0")
            <> ": "
            <> t)
          (ask (K.get_secret tailscale_namespace (ss_name <> "-0")))
    let dev = device_of_secret secret
    if dev.ip == "" && dev.fqdn == ""
        then raise (
            error (
              "tailscale secret " <> tailscale_namespace <> "/" <> ss_name
              <> " contains no device address"))
        else pure dev

  abbrev device_of_first : String → List K.Object → Exec K.State TailscaleDevice
  device_of_first what [] = raise (
      error
        ("no Tailscale StatefulSet found for " <> what <> " in namespace " <> tailscale_namespace))
  device_of_first what (ss ∷ items) = device_of_stateful_set (K.object_name ss)

  unfoldable pub get_tailscale_device : String → String → Exec K.State TailscaleDevice
  get_tailscale_device cluster_name cluster_namespace = do
    let what = cluster_namespace <> "/" <> cluster_name
    items ←
        wrap (λ t. "cannot list Tailscale StatefulSets for " <> what <> ": " <> t)
          (ask (
            K.list_objects stateful_set_list_gvk tailscale_namespace (
              (tailscale_parent_resource_label, cluster_name)
              ∷ (tailscale_parent_resource_ns_label, cluster_namespace)
              ∷ [])))
    device_of_first what items

  abbrev device_if_exposed : String → String → Reply K.Object → Exec K.State TailscaleDevice
  device_if_exposed namespace name (bad e) = pure no_device
  device_if_exposed namespace name (good kcp) =
      if not (is_tailscale_exposed kcp).0
      then pure no_device
      else get_tailscale_device name namespace

  unfoldable pub get_kamaji_tailscale_device : String → String → Exec K.State TailscaleDevice
  get_kamaji_tailscale_device namespace name = do
    kcp ← attempt (ask (K.get_object kamaji_control_plane_gvk namespace name))
    device_if_exposed namespace name kcp

-- A prefix that cannot be ensured is only logged.
unfoldable pub sync_tailscale_ipam :
    (N : Netbox) → ℕ → TailscaleDevice → Exec N.State (IpAddress × Bool)
sync_tailscale_ipam N fhrp_group_id dev =
    if dev.ip == ""
    then raise (error "tailscale device has no IP address to sync to NetBox")
    else (do
      prefix ← attempt (get_or_create_ipam_prefix N dev.ip)
      get_or_create_ip_address N dev.ip fhrp_group_id dev.fqdn)
