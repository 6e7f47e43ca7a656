-- ===== src/Cluster/IpRows.antt =====
-- ipaddr.go: the addresses of the clusters, as Kubernetes and NetBox see them.
pub mod Reads
use machinecfg.Prelude.{
  String, ◌<>◌, Bool, true, false, not, Option, none, some, List, [], ◌∷◌, ◌++◌, Dict, get_text,
  ◌==◌, nat_eq, string_eq, if◌then◌else◌,
}
use machinecfg.Effect.{
  Exec, Reply, good, bad, pure, ask, first, attempt, wrap, on_left, on_right, ◌>>=◌,
}
use machinecfg.Text.{split, trim_space}
use machinecfg.Netbox.{Netbox, Page, Param, IpAddress}
use machinecfg.Kube.{Kube, Gvk}
use machinecfg.Cluster.Names.{kamaji_control_plane_gvk, cilium_lb_ip_annotation}
use machinecfg.Cluster.Tailscale.{
  TailscaleDevice, address, annotations_path, is_tailscale_exposed, get_tailscale_device,
}

pub record IpAddressRow : Type 0 where
  pub cluster_name : String
  pub ip_address : String
  pub source : String
  pub netbox_assigned : Bool
  pub netbox_status : String

abbrev kamaji_control_plane_list_gvk : Gvk
kamaji_control_plane_list_gvk = record kamaji_control_plane_gvk { kind = "KamajiControlPlaneList" }

contains_text : String → List String → Bool
contains_text name [] = false
contains_text name (n ∷ ns) = if n == name then true else contains_text name ns

-- The set of the names that are not empty.
cluster_filter : List String → List String
cluster_filter [] = []
cluster_filter (n ∷ ns) = let rest = cluster_filter ns in if not (n == "") then n ∷ rest else rest

-- An empty set filters nothing.
abbrev in_filter : List String → String → Bool
in_filter [] name = true
in_filter (n ∷ ns) name = contains_text name (n ∷ ns)

unfoldable pub selects : List String → String → Bool
unfolding cluster_filter contains_text
selects cluster_names name = in_filter (cluster_filter cluster_names) name

-- The entries of the annotation that are not blank.
unfoldable pub listed_ips : List String → List String
unfolding trim_space
listed_ips [] = []
listed_ips (raw ∷ raws) =
    let ip = trim_space raw in let rest = listed_ips raws in if ip == "" then rest else ip ∷ rest

module _ (N : Netbox) where
  abbrev status_of_page : Page IpAddress → Exec N.State (Bool × String)
  status_of_page page =
      if page.count == 0
      then pure (false, "")
      else (do addr ← first page.results; pure (true, addr.status))

  unfoldable pub get_netbox_ip_status : String → Exec N.State (Bool × String)
  get_netbox_ip_status ip = do
    result ←
        wrap (λ t. "cannot query NetBox IPAM for " <> ip <> ": " <> t)
          (ask (N.ip_addresses_list (Param.q ip ∷ [])))
    status_of_page result

  -- A failed request is logged, and counts as an unknown address.
  abbrev status_or_unknown : Reply (Bool × String) → Bool × String
  status_or_unknown (good status) = status
  status_or_unknown (bad e) = (false, "")

  abbrev known_status : String → Exec N.State (Bool × String)
  known_status ip = do r ← attempt (get_netbox_ip_status ip); pure (status_or_unknown r)

  unfoldable pub cilium_rows : String → List String → Exec N.State (List IpAddressRow)
  cilium_rows name [] = pure []
  cilium_rows name (ip ∷ ips) = do
    status ← known_status ip
    rest ← cilium_rows name ips
    pure (
        record {
          cluster_name = name;
          ip_address = ip;
          source = "cilium-lb-ipam";
          netbox_assigned = status.0;
          netbox_status = status.1;
        }
        ∷ rest)

  abbrev tailscale_rows : String → Reply TailscaleDevice → Exec N.State (List IpAddressRow)
  tailscale_rows name (bad e) = pure []
  tailscale_rows name (good dev) = do
    status ← if dev.ip == "" then pure (false, "") else known_status dev.ip
    pure (
        record {
          cluster_name = name;
          ip_address = address dev;
          source = "tailscale";
          netbox_assigned = status.0;
          netbox_status = status.1;
        }
        ∷ [])

module _ (N : Netbox) (K : Kube) (unmarshal_strings : String → Reply (List String)) where
  abbrev World : Type 0
  World = N.State × K.State

  abbrev annotated_ips : Reply (Option (Dict String)) → List String
  annotated_ips (good (some m)) = listed_ips (split b',' (get_text m cilium_lb_ip_annotation))
  annotated_ips (good none) = listed_ips (split b',' "")
  annotated_ips (bad e) = []

  abbrev exposed_rows : String → String → K.Object → Exec World (List IpAddressRow)
  exposed_rows namespace name obj =
      if (is_tailscale_exposed K unmarshal_strings obj).0
      then (do
        dev ← attempt (on_right (get_tailscale_device K unmarshal_strings name namespace))
        on_left (tailscale_rows N name dev))
      else pure []

  unfoldable pub rows_of_objects :
      String → List String → List K.Object → Exec World (List IpAddressRow)
  rows_of_objects namespace cluster_names [] = pure []
  rows_of_objects namespace cluster_names (obj ∷ objs) = do
    let name = K.object_name obj
    rows ←
        if selects cluster_names name
        then (do
          cilium ←
              on_left
                (cilium_rows N name (annotated_ips (K.nested_string_map obj annotations_path)))
          tailscale ← exposed_rows namespace name obj
          pure (cilium ++ tailscale))
        else pure []
    rest ← rows_of_objects namespace cluster_names objs
    pure (rows ++ rest)

  unfoldable pub show_ip_addresses : String → List String → Exec World (List IpAddressRow)
  show_ip_addresses namespace cluster_names = do
    items ←
        wrap (λ t. "cannot list KamajiControlPlane in namespace " <> namespace <> ": " <> t)
          (on_right (ask (K.list_objects kamaji_control_plane_list_gvk namespace [])))
    rows_of_objects namespace cluster_names items
