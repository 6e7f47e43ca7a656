-- ===== src/Cluster/Sync/Steps.antt =====
-- The stages of one round of `SyncStatus`. A stage that fails ends the round with its error.
pub mod Answers
pub mod Moves
use machinecfg.Prelude.{
  ℕ, String, ◌<>◌, Bool, false, not, ◌||◌, Option, none, some, List, [], Dict, lookup, ◌==◌,
  string_eq, if◌then◌else◌,
}
use machinecfg.Effect.{
  Exec, Reply, good, bad, Error, pure, raise, ask, attempt, wrap, on_left, on_right, ◌>>=◌,
}
use machinecfg.Text.{before, trim_space}
use machinecfg.Netbox.{Netbox, NbCluster, IpAddress, Record}
use machinecfg.Kube.{Kube}
use machinecfg.Cluster.Names.{managed_type_slug, kamaji_control_plane_gvk, cilium_lb_ip_annotation}
use machinecfg.Cluster.Records.{
  is_hostname, get_dns_name_from_prefix, get_or_create_ip_address, get_or_create_service_template,
  get_or_create_service,
}
use machinecfg.Cluster.Tailscale.{
  TailscaleDevice, address, annotations_path, get_kamaji_tailscale_device, sync_tailscale_ipam,
}

pub record SyncStatusResult : Type 0 where
  pub cluster_name : String
  pub fhrp_group_id : ℕ
  pub service_id : ℕ
  pub ip_address_id : ℕ
  pub tailscale_address : String
  pub updated : Bool
  pub error : String

-- `SyncStatusResult{ClusterName: name}`
abbrev pub named : String → SyncStatusResult
named name = record {
  cluster_name = name;
  fhrp_group_id = 0;
  service_id = 0;
  ip_address_id = 0;
  tailscale_address = "";
  updated = false;
  error = "";
}

abbrev pub failed : SyncStatusResult → Error → SyncStatusResult
failed r e = record r { error = e.text }

pub data Step : Type 0 where
  go_on stop : SyncStatusResult → Step

abbrev pub result_of : Step → SyncStatusResult
result_of (go_on r) = r
result_of (stop r) = r

-- The first address of the list in an annotation, which may be missing.
abbrev first_ip : Option String → String
first_ip none = ""
first_ip (some raw_ips) = if raw_ips == "" then "" else trim_space (before b',' raw_ips)

abbrev text_of : Reply String → String
text_of (good s) = s
text_of (bad e) = ""

abbrev after_ip : SyncStatusResult → Reply (IpAddress × Bool) → Step
after_ip r (bad e) = stop (failed r e)
after_ip r (good (addr, created)) =
    go_on (record r { updated = created || r.updated; ip_address_id = addr.id })

abbrev after_tailscale :
    SyncStatusResult → TailscaleDevice → Reply (IpAddress × Bool) → SyncStatusResult
after_tailscale r dev (bad e) = r
after_tailscale r dev (good (addr, created)) = record r {
  tailscale_address = address dev;
  updated = created || r.updated;
}

abbrev after_service : SyncStatusResult → Reply (Record × Bool) → SyncStatusResult
after_service r (bad e) = failed r e
after_service r (good (svc, created)) = record r {
  updated = created || r.updated;
  service_id = svc.id;
}

module _ (K : Kube) where
  abbrev annotations_or_error : String → Reply (Option (Dict String)) → Exec K.State (Dict String)
  annotations_or_error name (good (some m)) = pure m
  annotations_or_error name (good none) = pure []
  annotations_or_error name (bad e) = raise (record e {
    text = "cannot read serviceAnnotations from KamajiControlPlane " <> name <> ": " <> e.text;
  })

  unfoldable pub get_kamaji_control_plane_ip : String → String → Exec K.State String
  unfolding before trim_space
  get_kamaji_control_plane_ip namespace name = do
    kcp ←
        wrap (λ t. "cannot get KamajiControlPlane " <> namespace <> "/" <> name <> ": " <> t)
          (ask (K.get_object kamaji_control_plane_gvk namespace name))
    annotations ← annotations_or_error name (K.nested_string_map kcp annotations_path)
    pure (first_ip (lookup cilium_lb_ip_annotation annotations))

module _ (N : Netbox) where
  abbrev after_template :
      String → ℕ → ℕ → SyncStatusResult → Reply (Record × Bool) → Exec N.State SyncStatusResult
  after_template cluster_name port fhrp_group_id r (bad e) = pure (failed r e)
  after_template cluster_name port fhrp_group_id r (good (template, created)) = do
    svc ← attempt (get_or_create_service N fhrp_group_id cluster_name port)
    pure (after_service (record r { updated = created || r.updated }) svc)

  unfoldable pub service_stage : String → ℕ → ℕ → SyncStatusResult → Exec N.State SyncStatusResult
  service_stage cluster_name port fhrp_group_id r = do
    template ← attempt (get_or_create_service_template N port)
    after_template cluster_name port fhrp_group_id r template

module _ (N : Netbox) (K : Kube) (unmarshal_strings : String → Reply (List String)) where
  -- The host if it is a name, else a name made from the domains of the prefix.
  abbrev dns_name_for : String → String → String → Exec N.State String
  dns_name_for host cilium_ip cluster_name =
      if not (is_hostname host)
      then (do
        dns_name ← attempt (get_dns_name_from_prefix N cilium_ip cluster_name)
        pure (text_of dns_name))
      else pure host

  abbrev record_cilium_ip :
      String → String → ℕ → SyncStatusResult → Reply String → Exec N.State Step
  record_cilium_ip name host fhrp_group_id r (bad e) = pure (go_on r)
  record_cilium_ip name host fhrp_group_id r (good cilium_ip) =
      if not (cilium_ip == "")
      then (do
        dns_name ← dns_name_for host cilium_ip name
        addr ← attempt (get_or_create_ip_address N cilium_ip fhrp_group_id dns_name)
        pure (after_ip r addr))
      else pure (go_on r)

  unfoldable pub cilium_stage :
      String → String → String → ℕ → SyncStatusResult → Exec (N.State × K.State) Step
  cilium_stage namespace name host fhrp_group_id r = do
    cilium_ip ← attempt (on_right (get_kamaji_control_plane_ip K namespace name))
    on_left (record_cilium_ip name host fhrp_group_id r cilium_ip)

  abbrev record_tailscale :
      ℕ → SyncStatusResult → Reply TailscaleDevice → Exec N.State SyncStatusResult
  record_tailscale fhrp_group_id r (bad e) = pure r
  record_tailscale fhrp_group_id r (good dev) =
      if not (address dev == "")
      then (do
        addr ← attempt (sync_tailscale_ipam N fhrp_group_id dev)
        pure (after_tailscale r dev addr))
      else pure r

  -- Nothing that goes wrong here ends the round.
  unfoldable pub tailscale_stage :
      String → String → ℕ → SyncStatusResult → Exec (N.State × K.State) SyncStatusResult
  tailscale_stage namespace name fhrp_group_id r = do
    dev ← attempt (on_right (get_kamaji_tailscale_device K unmarshal_strings namespace name))
    on_left (record_tailscale fhrp_group_id r dev)

  abbrev then_tailscale : String → String → ℕ → Step → Exec (N.State × K.State) Step
  then_tailscale namespace name fhrp_group_id (stop r) = pure (stop r)
  then_tailscale namespace name fhrp_group_id (go_on r) = do
    r' ← tailscale_stage namespace name fhrp_group_id r
    pure (go_on r')

  -- The part of the round for clusters of the managed type only.
  unfoldable pub managed_stage :
      String → NbCluster → String → ℕ → SyncStatusResult → Exec (N.State × K.State) Step
  managed_stage namespace c host fhrp_group_id r =
      if c.type_slug == managed_type_slug
      then (do
        step ← cilium_stage namespace c.name host fhrp_group_id r
        then_tailscale namespace c.name fhrp_group_id step)
      else pure (go_on r)
