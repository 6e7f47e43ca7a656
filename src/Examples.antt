-- ===== src/Examples.antt =====
-- A small NetBox and a small Kubernetes, on which the theorems are tried.
pub mod Clusters
pub mod Machines
pub mod Controllers
pub mod Commands
pub mod Configs
pub mod Groups
pub mod Statuses
pub mod Events
pub mod Devices
pub mod Seeds
use machinecfg.Prelude.{
  ℕ, ◌+◌, ◌<◌, String, ◌≡◌, refl, ◌≢◌, Bool, Option, none, some, List, [], ◌∷◌, length, Dict, ◌==◌,
  string_eq, if◌then◌else◌, arith,
}
use machinecfg.Effect.{Reply, good, bad, Error, ErrorKind, error, Outcome, ok}
use machinecfg.Butane.Config.{Config}
use machinecfg.Effect.Meets.{ReplyIn}
use machinecfg.Netbox.{Netbox, Page, Nullable, unset, NbCluster, Device, FhrpGroup, Record}
use machinecfg.Netbox.Pages.{IsShown, HasPages}
use machinecfg.Kube.{Kube, Hardware}

-- The clusters, the groups with the newest first, and one device.
pub record Store : Type 0 where
  pub clusters : List NbCluster
  pub groups : List FhrpGroup
  pub device : Device

abbrev pub page_of : {A : Type 0} → List A → Page A
page_of xs = record { count = length xs; results = xs }

abbrev no_answer : {A : Type 0} → Reply A
no_answer = bad (error "no answer")

abbrev pub small_netbox : Netbox
small_netbox = record {
  State = Store;
  clusters_list = λ q s. good (page_of s.clusters);
  virtual_machines_list = λ q s. good (page_of []);
  devices_list = λ q s. good (page_of (s.device ∷ []));
  devices_retrieve = λ id s. good s.device;
  devices_set_status = λ id target s. (
    good (record s.device { status_value = target }),
    record s { device = record s.device { status_value = target } },
  );
  interfaces_list = λ q s. good (page_of []);
  interfaces_retrieve = λ id s. no_answer;
  inventory_items_list = λ q s. good (page_of []);
  prefixes_list = λ q s. good (page_of []);
  prefixes_create = λ ip s. (no_answer, s);
  ip_addresses_list = λ q s. good (page_of []);
  ip_addresses_retrieve = λ id s. no_answer;
  ip_addresses_create = λ r s. (no_answer, s);
  ip_addresses_set_dns_name = λ id name s. (no_answer, s);
  fhrp_groups_list = λ q s. good (page_of s.groups);
  fhrp_groups_create = λ r s. (
    good (record { id = 1 + length s.groups; group_id = r.group_id }),
    record s { groups = record { id = 1 + length s.groups; group_id = r.group_id } ∷ s.groups },
  );
  service_templates_list = λ q s. good (page_of (record { id = 7; name = "kube-apiserver" } ∷ []));
  service_templates_create = λ r s. (no_answer, s);
  services_list = λ q s. good (page_of []);
  services_create = λ r s. (good (record { id = 9; name = r.name }), s);
}

-- It answers nothing.
abbrev pub silent_netbox : Type 0 → Netbox
silent_netbox S = record {
  State = S;
  clusters_list = λ q s. no_answer;
  virtual_machines_list = λ q s. no_answer;
  devices_list = λ q s. no_answer;
  devices_retrieve = λ id s. no_answer;
  devices_set_status = λ id target s. (no_answer, s);
  interfaces_list = λ q s. no_answer;
  interfaces_retrieve = λ id s. no_answer;
  inventory_items_list = λ q s. no_answer;
  prefixes_list = λ q s. no_answer;
  prefixes_create = λ ip s. (no_answer, s);
  ip_addresses_list = λ q s. no_answer;
  ip_addresses_retrieve = λ id s. no_answer;
  ip_addresses_create = λ r s. (no_answer, s);
  ip_addresses_set_dns_name = λ id name s. (no_answer, s);
  fhrp_groups_list = λ q s. no_answer;
  fhrp_groups_create = λ r s. (no_answer, s);
  service_templates_list = λ q s. no_answer;
  service_templates_create = λ r s. (no_answer, s);
  services_list = λ q s. no_answer;
  services_create = λ r s. (no_answer, s);
}

pub good≢bad : {A : Type 0} {a : A} {e : Error} → good a ≢ bad e
good≢bad h = cc h

pub page_of-IsShown : {A : Type 0} (xs : List A) → IsShown (page_of xs)
page_of-IsShown [] h = absurd (omega (arith, h))
page_of-IsShown (x ∷ xs) h = λ e. cc e

pub small_netbox-HasPages : HasPages small_netbox
small_netbox-HasPages = record {
  clusters = λ q s. page_of-IsShown s.clusters;
  virtual_machines = λ q s. page_of-IsShown [];
  devices = λ q s. page_of-IsShown (s.device ∷ []);
  prefixes = λ q s. page_of-IsShown [];
  ip_addresses = λ q s. page_of-IsShown [];
  fhrp_groups = λ q s. page_of-IsShown s.groups;
  service_templates = λ q s. page_of-IsShown (record { id = 7; name = "kube-apiserver" } ∷ []);
  services = λ q s. page_of-IsShown [];
}

abbrev missing : {A : Type 0} → Reply A
missing = bad (record { kind = ErrorKind.not_found; text = "not found" })

-- Its state is the list of what was written. A patch of the object "broken" is refused.
abbrev pub small_kube : Kube
small_kube = record {
  State = List String;
  Object = Unit;
  nested_string = λ o path. good none;
  nested_string_map = λ o path. good none;
  nested_int64 = λ o path. good none;
  nested_slice = λ o path. good none;
  object_name = λ o. "object";
  object_labels = λ o. [];
  object_annotations = λ o. [];
  get_object = λ gvk namespace name s. good tt;
  list_objects = λ gvk namespace labels s. good [];
  get_config_map = λ namespace name s. good (("sync_interval", "30s") ∷ []);
  get_secret = λ namespace name s. good (("netbox_token", "secret") ∷ []);
  hardware_get = λ namespace name s. missing;
  hardware_list = λ namespace s. good [];
  hardware_create = λ hw s. (good hw, hw.name ∷ s);
  hardware_patch =
      λ hw new s. if hw.name == "broken" then (no_answer, s) else (good new, new.name ∷ s);
  hardware_delete = λ hw s. (good tt, hw.name ∷ s);
  record_event = λ type reason message s. message ∷ s;
}

abbrev pub first_device : Device
first_device = record {
  id = 42;
  name = some "node-1";
  primary_ip4 = unset;
  primary_ip = unset;
  status_value = "staged";
  status_label = "Staged";
  serial = some "S1";
  model = "R640";
  manufacturer = "dell";
  role = "worker";
  site = "paris";
  location = unset;
  rack = unset;
  tenant = unset;
  platform = unset;
  cluster = unset;
}

abbrev pub cluster_named : ℕ → String → String → NbCluster
cluster_named id name type_slug = record {
  id = id;
  name = name;
  type_slug = type_slug;
  status = some "active";
}

-- A managed cluster, a cluster of another type, and a standalone one.
abbrev pub three_clusters : List NbCluster
three_clusters =
    cluster_named 1 "prod" "managed-kubernetes"
    ∷ cluster_named 2 "hypervisors" "proxmox"
    ∷ cluster_named 3 "edge" "standalone-kubernetes"
    ∷ []

abbrev pub two_groups : List FhrpGroup
two_groups = record { id = 2; group_id = 12 } ∷ record { id = 1; group_id = 5 } ∷ []

abbrev pub store : Store
store = record { clusters = three_clusters; groups = two_groups; device = first_device }

abbrev pub hardware_named : String → Dict String → Dict String → Hardware
hardware_named name labels annotations = record {
  name = name;
  namespace = "default";
  labels = labels;
  annotations = annotations;
  interfaces = [];
  metadata = none;
  disks = [];
  user_data = none;
  vendor_data = none;
}

abbrev pub no_ignition : Config → Outcome String
no_ignition config = ok ""
