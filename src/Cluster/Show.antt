-- ===== src/Cluster/Show.antt =====
-- show.go: the clusters of NetBox with their machines and their readiness in Kubernetes.
pub mod Laws
pub mod Reads
use machinecfg.Prelude.{
  ℕ, String, ◌<>◌, Bool, true, false, not, Option, none, some, List, [], ◌∷◌, ◌++◌, map, lookup,
  length, ◌==◌, nat_eq, string_eq, if◌then◌else◌,
}
use machinecfg.Effect.{Exec, Reply, good, bad, pure, ask, attempt, wrap, on_left, on_right, ◌>>=◌}
use machinecfg.Text.{itoa}
use machinecfg.Netbox.{Netbox, Page, Param, Device, VirtualMachine, NbCluster}
use machinecfg.Kube.{Kube, Item, map_item, other_item}
use machinecfg.Common.Filters.{given}
use machinecfg.Cluster.Names.{managed_type_slug, capi_cluster_gvk}

pub record ClusterRow : Type 0 where
  pub name : String
  pub type_slug : String
  pub netbox_status : String
  pub capi_ready : String
  pub device_count : ℕ
  pub devices : List String

-- `s, ok := cond["status"].(string)`: the answer of a condition of type "Ready", none if the
-- status is no text.
abbrev ready_of_status : Option (Option String) → Option String
ready_of_status (some (some s)) =
    some (if s == "True" then "true" else if s == "False" then "false" else "unknown")
ready_of_status (some none) = none
ready_of_status none = none

abbrev is_ready_type : Option (Option String) → Bool
is_ready_type (some (some t)) = t == "Ready"
is_ready_type (some none) = false
is_ready_type none = false

abbrev ready_of_item : Item → Option String
ready_of_item other_item = none
ready_of_item (map_item cond) =
    if is_ready_type (lookup "type" cond) then ready_of_status (lookup "status" cond) else none

-- The first condition that answers.
unfoldable pub ready_of_conditions : List Item → String
ready_of_conditions [] = ""
ready_of_conditions (c ∷ cs) = elim (ready_of_item c) [
  | some answer ↦ answer
  | none ↦ ready_of_conditions cs
]

abbrev found_conditions : Reply (Option (List Item)) → List Item
found_conditions (good (some cs)) = cs
found_conditions (good none) = []
found_conditions (bad e) = []

module _ (K : Kube) where
  abbrev ready_of_reply : Reply K.Object → String
  ready_of_reply (bad e) = ""
  ready_of_reply (good capi_cluster) =
      ready_of_conditions
        (found_conditions (K.nested_slice capi_cluster ("status" ∷ "conditions" ∷ [])))

  unfoldable pub get_capi_cluster_info : String → String → Exec K.State String
  unfolding ready_of_conditions
  get_capi_cluster_info namespace name = do
    r ← attempt (ask (K.get_object capi_cluster_gvk namespace name))
    pure (ready_of_reply r)

module _ (N : Netbox) where
  unfoldable pub get_cluster_devices : ℕ → Exec N.State (List Device)
  get_cluster_devices cluster_id = do
    result ←
        wrap (λ t. "cannot list devices for cluster " <> itoa cluster_id <> ": " <> t)
          (ask (N.devices_list (Param.cluster_id (cluster_id ∷ []) ∷ [])))
    pure result.results

  unfoldable pub get_cluster_vms : ℕ → Exec N.State (List VirtualMachine)
  get_cluster_vms cluster_id = do
    result ←
        wrap (λ t. "cannot list VMs for cluster " <> itoa cluster_id <> ": " <> t)
          (ask (N.virtual_machines_list (Param.cluster_id (cluster_id ∷ []) ∷ [])))
    pure result.results

  abbrev text_or_empty : Option String → String
  text_or_empty none = ""
  text_or_empty (some s) = s

  -- A list that cannot be read is logged, and adds no names.
  abbrev device_names : Reply (List Device) → List String
  device_names (bad e) = []
  device_names (good devices) = map (λ (d : Device). text_or_empty d.name) devices

  abbrev vm_names : Reply (List VirtualMachine) → List String
  vm_names (bad e) = []
  vm_names (good vms) = map (λ (vm : VirtualMachine). vm.name) vms

module _ (N : Netbox) (K : Kube) where
  abbrev World : Type 0
  World = N.State × K.State

  unfoldable pub show_row : String → NbCluster → Exec World ClusterRow
  unfolding get_cluster_devices get_cluster_vms
  show_row namespace c = do
    devices ← attempt (on_left (get_cluster_devices N c.id))
    vms ← attempt (on_left (get_cluster_vms N c.id))
    let names = device_names N devices ++ vm_names N vms
    ready ←
        if c.type_slug == managed_type_slug
        then on_right (get_capi_cluster_info K namespace c.name)
        else pure ""
    pure (record {
      name = c.name;
      type_slug = c.type_slug;
      netbox_status = text_or_empty N c.status;
      capi_ready = ready;
      device_count = length names;
      devices = names;
    })

  unfoldable pub show_rows : String → List NbCluster → Exec World (List ClusterRow)
  show_rows namespace [] = pure []
  show_rows namespace (c ∷ cs) = do
    row ← show_row namespace c
    rows ← show_rows namespace cs
    pure (row ∷ rows)

  unfoldable pub show : String → List String → Exec World (List ClusterRow)
  show namespace cluster_names = do
    netbox_clusters ←
        wrap (λ t. "cannot list NetBox clusters: " <> t)
          (on_left (
            ask (
              N.clusters_list (if given cluster_names then Param.name cluster_names ∷ [] else []))))
    if netbox_clusters.count == 0 then pure [] else show_rows namespace netbox_clusters.results
