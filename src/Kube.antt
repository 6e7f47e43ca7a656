-- ===== src/Kube.antt =====
-- The Kubernetes client (controller-runtime) and the types that the program sends through it,
-- which are not part of the repository. What a call answers is a parameter, the fields of `Kube`.
pub mod Watches
use machinecfg.Prelude.{ℕ, String, Bool, Option, List, Dict}
use machinecfg.Effect.{Reply}

-- `schema.GroupVersionKind`
pub record Gvk : Type 0 where
  pub group : String
  pub version : String
  pub kind : String

-- An element of a list read from an unstructured object: a map of which the texts are read, or not
-- a map. A value that is no text is `none`.
pub data Item : Type 0 where
  map_item : Dict (Option String) → Item
  other_item : Item

pub record HardwareIp : Type 0 where
  pub address : String
  pub netmask : String
  pub gateway : String

pub record Dhcp : Type 0 where
  pub mac : String
  pub hostname : String
  pub name_servers : List String
  pub arch : String
  pub uefi : Bool
  pub ip : HardwareIp

pub record Netboot : Type 0 where
  pub allow_pxe : Option Bool
  pub allow_workflow : Option Bool

pub record HardwareInterface : Type 0 where
  pub dhcp : Option Dhcp
  pub disable_dhcp : Bool
  pub netboot : Option Netboot

pub record Metadata : Type 0 where
  pub hostname : String
  pub id : String
  pub ips : List HardwareIp
  pub manufacturer_slug : String

-- Tinkerbell's `Hardware`. A nil map of labels or annotations is an empty one.
pub record Hardware : Type 0 where
  pub name : String
  pub namespace : String
  pub labels : Dict String
  pub annotations : Dict String
  pub interfaces : List HardwareInterface
  pub metadata : Option Metadata
  pub disks : List String
  pub user_data : Option String
  pub vendor_data : Option String

-- The client. A get or list request changes nothing. `Object` is `unstructured.Unstructured`,
-- which the `nested` functions read by a path of keys: a value, not found, or an error.
pub record Kube : Type 1 where
  pub State : Type 0
  pub Object : Type 0
  pub nested_string : Object → List String → Reply (Option String)
  pub nested_string_map : Object → List String → Reply (Option (Dict String))
  pub nested_int64 : Object → List String → Reply (Option ℕ)
  pub nested_slice : Object → List String → Reply (Option (List Item))
  pub object_name : Object → String
  pub object_labels : Object → Dict String
  pub object_annotations : Object → Dict String
  -- kind, namespace, name
  pub get_object : Gvk → String → String → State → Reply Object
  -- kind, namespace, labels to match
  pub list_objects : Gvk → String → Dict String → State → Reply (List Object)
  pub get_config_map : String → String → State → Reply (Dict String)
  pub get_secret : String → String → State → Reply (Dict String)
  pub hardware_get : String → String → State → Reply Hardware
  pub hardware_list : String → State → Reply (List Hardware)
  pub hardware_create : Hardware → State → Reply Hardware × State
  -- the object before the change and after it
  pub hardware_patch : Hardware → Hardware → State → Reply Hardware × State
  pub hardware_delete : Hardware → State → Reply (Unit {0}) × State
  -- an event with its type, its reason and its message, on the object that is reconciled
  pub record_event : String → String → String → State → State
