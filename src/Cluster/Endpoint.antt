-- ===== src/Cluster/Endpoint.antt =====
-- sync_status.go: where the control plane of a cluster answers.
use machinecfg.Prelude.{
  ℕ, ◌%◌, String, ◌<>◌, Option, none, some, List, [], ◌∷◌, ◌==◌, nat_eq, string_eq, if◌then◌else◌,
}
use machinecfg.Effect.{Exec, Reply, good, bad, error, pure, raise, ask, first, wrap, ◌>>=◌}
use machinecfg.Text.{before, itoa, quoted, int32_mod}
use machinecfg.Netbox.{Netbox, Nullable, unset, null, value, BriefAddress, Param}
use machinecfg.Kube.{Kube}
use machinecfg.Cluster.Names.{capi_cluster_gvk, default_control_plane_port, headnode_role_slug}

module _ (K : Kube) where
  abbrev path : String → List String
  path field = "spec" ∷ "controlPlaneEndpoint" ∷ field ∷ []

  -- `host, _, _ = NestedString(…)`
  abbrev text_or_empty : Reply (Option String) → String
  text_or_empty (good (some s)) = s
  text_or_empty (good none) = ""
  text_or_empty (bad e) = ""

  -- `int32(portVal)`, or the default port where it is absent, zero or no number
  abbrev port_or_default : Reply (Option ℕ) → ℕ
  port_or_default (good (some port)) =
      if port == 0 then default_control_plane_port else port % int32_mod
  port_or_default (good none) = default_control_plane_port
  port_or_default (bad e) = default_control_plane_port

  unfoldable pub get_capi_cluster_endpoint : String → String → Exec K.State (String × ℕ)
  get_capi_cluster_endpoint namespace name = do
    capi_cluster ←
        wrap (λ t. "cannot get CAPI Cluster " <> namespace <> "/" <> name <> ": " <> t)
          (ask (K.get_object capi_cluster_gvk namespace name))
    pure (
      text_or_empty (K.nested_string capi_cluster (path "host")),
      port_or_default (K.nested_int64 capi_cluster (path "port")),
    )

-- `GetPrimaryIp4` if it is set, else `GetPrimaryIp` if that is set: a null address has no text.
abbrev pub primary_address : Nullable BriefAddress → Nullable BriefAddress → String
primary_address (value ip4) ip = ip4.address
primary_address null ip = ""
primary_address unset (value ip) = ip.address
primary_address unset null = ""
primary_address unset unset = ""

module _ (N : Netbox) where
  abbrev headnodes : ℕ → List Param
  headnodes cluster_id =
      Param.cluster_id (cluster_id ∷ []) ∷ Param.role (headnode_role_slug ∷ []) ∷ []

  -- The address without its CIDR suffix; `what` names the machine in the error.
  unfoldable pub bare_address : String → String → Exec N.State String
  unfolding before
  bare_address what addr =
      if addr == "" then raise (error (what <> " has no primary IP")) else pure (before b'/' addr)

  unfoldable pub get_headnode_vm_ip : ℕ → Exec N.State String
  get_headnode_vm_ip cluster_id = do
    result ←
        wrap (λ t. "cannot list headnode VMs in cluster " <> itoa cluster_id <> ": " <> t)
          (ask (N.virtual_machines_list (headnodes cluster_id)))
    if result.count == 0
        then raise (error ("no headnode device or VM found in cluster " <> itoa cluster_id))
        else (do
          vm ← first result.results
          bare_address ("headnode VM " <> quoted vm.name)
              (primary_address vm.primary_ip4 vm.primary_ip))

  abbrev device_name : Option String → String
  device_name none = ""
  device_name (some name) = name

  unfoldable pub get_headnode_endpoint : ℕ → Exec N.State (String × ℕ)
  get_headnode_endpoint cluster_id = do
    result ←
        wrap (λ t. "cannot list headnode devices in cluster " <> itoa cluster_id <> ": " <> t)
          (ask (N.devices_list (headnodes cluster_id)))
    if result.count == 0
        then (do host ← get_headnode_vm_ip cluster_id; pure (host, default_control_plane_port))
        else (do
          device ← first result.results
          host ←
              bare_address ("headnode device " <> quoted (device_name device.name))
                (primary_address device.primary_ip4 device.primary_ip)
          pure (host, default_control_plane_port))
