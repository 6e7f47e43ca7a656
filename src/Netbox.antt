-- ===== src/Netbox.antt =====
-- The NetBox REST client (go-netbox), which is not part of the repository: the fields that the
-- program reads of NetBox's objects, and the calls that it makes. What a call answers is a
-- parameter, the fields of `Netbox`. An int32 is its bit pattern.
pub mod Pages
pub mod FindOrCreate
use machinecfg.Prelude.{◌≡◌, ℕ, String, Bool, Option, none, some, List, Dict}
use machinecfg.Effect.{Reply}

-- The `NullableT` types of the client: a field may be absent, or hold `null`.
pub data Nullable (A : Type 0) : Type 0 where
  unset null : Nullable A
  value : A → Nullable A

-- `f.Get()`, a pointer.
abbrev pub get_nullable : {A : Type 0} → Nullable A → Option A
get_nullable unset = none
get_nullable null = none
get_nullable (value a) = some a

-- `f.IsSet()`
abbrev pub is_set : {A : Type 0} → Nullable A → Bool
is_set unset = Bool.false
is_set null = Bool.true
is_set (value a) = Bool.true

-- A value of type `any` in a custom field: a text, or another value, of which is known how
-- `fmt.Sprint` prints it, and how `%s` does.
pub data Any : Type 0 where
  nil : Any
  text : String → Any
  opaque : String → String → Any

-- A brief object of which the name and the slug are read.
pub record Brief : Type 0 where
  pub name : String
  pub slug : String

-- `p.GetName()` on a pointer: the client's getters return "" for a nil receiver.
abbrev pub get_name : Option Brief → String
get_name none = ""
get_name (some b) = b.name

pub record BriefAddress : Type 0 where
  pub id : ℕ
  pub address : String
  pub display : String
  pub url : String

pub record Vlan : Type 0 where
  pub vid : ℕ
  pub name : String

pub record NbCluster : Type 0 where
  pub id : ℕ
  pub name : String
  pub type_slug : String
  pub status : Option String

-- `DeviceWithConfigContext`; a virtual machine has the first five fields.
pub record Device : Type 0 where
  pub id : ℕ
  pub name : Option String
  pub primary_ip4 : Nullable BriefAddress
  pub primary_ip : Nullable BriefAddress
  pub status_value : String
  pub status_label : String
  pub serial : Option String
  pub model : String
  pub manufacturer : String
  pub role : String
  pub site : String
  pub location : Nullable Brief
  pub rack : Nullable Brief
  pub tenant : Nullable Brief
  pub platform : Nullable Brief
  pub cluster : Nullable Brief

-- A device of which the pointers that the code reads are not nil.
abbrev pub IsNamed : Device → Type 0
IsNamed d =
    ((name : String) × (d.name ≡ some name)) × ((serial : String) × (d.serial ≡ some serial))

pub record VirtualMachine : Type 0 where
  pub id : ℕ
  pub name : String
  pub primary_ip4 : Nullable BriefAddress
  pub primary_ip : Nullable BriefAddress

pub record Interface : Type 0 where
  pub id : ℕ
  pub name : String
  pub mac_address : Option String
  pub primary_mac_address : String
  pub mac_addresses : List String
  pub tags : List String
  pub tagged_vlans : List Vlan

pub record IpAddress : Type 0 where
  pub id : ℕ
  pub address : String
  pub display : String
  pub url : String
  pub dns_name : Option String
  pub status : String
  pub tags : List String
  pub assigned_object_id : Option ℕ

pub record Prefix : Type 0 where
  pub id : ℕ
  pub display : String
  pub vlan : Option Vlan
  pub custom_fields : Dict Any

pub record FhrpGroup : Type 0 where
  pub id : ℕ
  pub group_id : ℕ

-- A service, a service template and an inventory item: the number and the name.
pub record Record : Type 0 where
  pub id : ℕ
  pub name : String

-- One page of a list: `count` is the number of all objects that match.
pub record Page (A : Type 0) : Type 0 where
  pub count : ℕ
  pub results : List A

-- The parameters of a list request, in the order in which the builder sets them.
pub data Param : Type 0 where
  id device_id interface_id cluster_id rack_id : List ℕ → Param
  name role status site region location tenant type_slug tag parent description :
      List String → Param
  q contains ordering : String → Param
  limit : ℕ → Param
  has_primary_ip : Bool → Param

abbrev pub Query : Type 0
Query = List Param

pub record FhrpGroupRequest : Type 0 where
  pub protocol : String
  pub group_id : ℕ
  pub name : String

pub record IpAddressRequest : Type 0 where
  pub address : String
  pub status : String
  pub assigned_object_type : String
  pub assigned_object_id : ℕ
  pub dns_name : Option String

pub record ServiceTemplateRequest : Type 0 where
  pub name : String
  pub protocol : String
  pub ports : List ℕ

pub record ServiceRequest : Type 0 where
  pub parent_object_type : String
  pub parent_object_id : ℕ
  pub name : String
  pub protocol : String
  pub ports : List ℕ
  pub description : String

-- The client. A list or retrieve request changes nothing; a failed request returns no value.
pub record Netbox : Type 1 where
  pub State : Type 0
  pub clusters_list : Query → State → Reply (Page NbCluster)
  pub virtual_machines_list : Query → State → Reply (Page VirtualMachine)
  pub devices_list : Query → State → Reply (Page Device)
  pub devices_retrieve : ℕ → State → Reply Device
  pub devices_set_status : ℕ → String → State → Reply Device × State
  pub interfaces_list : Query → State → Reply (Page Interface)
  pub interfaces_retrieve : ℕ → State → Reply Interface
  pub inventory_items_list : Query → State → Reply (Page Record)
  pub prefixes_list : Query → State → Reply (Page Prefix)
  pub prefixes_create : String → State → Reply Prefix × State
  pub ip_addresses_list : Query → State → Reply (Page IpAddress)
  pub ip_addresses_retrieve : ℕ → State → Reply IpAddress
  pub ip_addresses_create : IpAddressRequest → State → Reply IpAddress × State
  pub ip_addresses_set_dns_name : ℕ → String → State → Reply IpAddress × State
  pub fhrp_groups_list : Query → State → Reply (Page FhrpGroup)
  pub fhrp_groups_create : FhrpGroupRequest → State → Reply FhrpGroup × State
  pub service_templates_list : Query → State → Reply (Page Record)
  pub service_templates_create : ServiceTemplateRequest → State → Reply Record × State
  pub services_list : Query → State → Reply (Page Record)
  pub services_create : ServiceRequest → State → Reply Record × State
