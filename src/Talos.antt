-- ===== src/Talos.antt =====
-- pkg/talos/talosconfig.go: the machine configuration of a device that runs Talos.
pub mod Laws
pub mod Reads
use machinecfg.Prelude.{
  ℕ, ◌%◌, ◌^◌, String, Bool, true, false, not, Option, none, some, List, [], ◌∷◌, ◌++◌, Dict, ltb,
  ◌==◌, nat_eq, if◌then◌else◌,
}
use machinecfg.Effect.{Exec, Reply, good, bad, Error, pure, ask, first, deref, attempt, ◌>>=◌}
use machinecfg.Netbox.{
  Netbox, Page, Param, Device, Interface, IpAddress, Prefix, Vlan, get_name, get_nullable,
}
use machinecfg.Common.Filters.{DeviceFilters}
use machinecfg.Common.{get_devices, has_dhcp_tag, is_vlan_id_in_vlan_list}

-- The parts of `v1alpha1` that are filled. A VLAN number is a `uint16`.
pub record TalosVlan : Type 0 where
  pub addresses : List String
  pub dhcp : Bool
  pub vlan_id : ℕ

pub record TalosDevice : Type 0 where
  pub cidr : String
  pub vlans : List TalosVlan
  pub dhcp : Bool
  pub interface : String

pub record MachineConfig : Type 0 where
  pub hostname : String
  pub interfaces : List TalosDevice
  pub node_labels : Dict String

pub record Talos : Type 0 where
  pub config : MachineConfig
  pub hostname : String

-- The number of the VLAN, 0 where there is none.
abbrev vlan_id_of : Option Vlan → ℕ
vlan_id_of none = 0
vlan_id_of (some vlan) = vlan.vid

abbrev node_labels_of : Device → String → Dict String
node_labels_of device serial =
    ("generated-by", "machinecfg")
    ∷ ("device.netbox.org/serial", serial)
    ∷ ("device.netbox.org/model", device.model)
    ∷ ("device.netbox.org/role", device.role)
    ∷ ("device.netbox.org/status", device.status_label)
    ∷ ("topology.kubernetes.io/region", device.site)
    ∷ ("topology.kubernetes.io/site", device.site)
    ∷ ("topology.netbox.org/location", get_name (get_nullable device.location))
    ∷ ("topology.netbox.org/racks", get_name (get_nullable device.rack))
    ∷ ("topology.netbox.org/tenant", get_name (get_nullable device.tenant))
    ∷ []

-- What the loop over the addresses does with a prefix: `deviceCIDR` and `talosVlans` after it.
unfoldable pub place_address :
    Interface → IpAddress → Prefix → String × List TalosVlan → String × List TalosVlan
unfolding is_vlan_id_in_vlan_list
place_address iface addr prefix (cidr, vlans) =
    let vlan_id = vlan_id_of prefix.vlan in
    if is_vlan_id_in_vlan_list vlan_id iface.tagged_vlans
    then (
      cidr,
      vlans
          ++ record { addresses = addr.address ∷ []; dhcp = false; vlan_id = vlan_id % 2 ^ 16 }
            ∷ [],
    )
    else (addr.address, vlans)

module _ (N : Netbox) where
  abbrev at_prefixes :
      Interface
      → IpAddress
      → String × List TalosVlan
      → Reply (Page Prefix)
      → Exec N.State (String × List TalosVlan)
  at_prefixes iface addr found (bad e) = pure found
  at_prefixes iface addr found (good prefixes) =
      if ltb 0 prefixes.count
      then (do prefix ← first prefixes.results; pure (place_address iface addr prefix found))
      else pure found

  unfoldable pub each_address :
      Interface → List IpAddress → String × List TalosVlan → Exec N.State (String × List TalosVlan)
  unfolding place_address
  each_address iface [] found = pure found
  each_address iface (addr ∷ addresses) found = do
    prefixes ← attempt (ask (N.prefixes_list (Param.contains addr.address ∷ [])))
    found' ← at_prefixes iface addr found prefixes
    each_address iface addresses found'

  abbrev talos_device : Interface → String × List TalosVlan → TalosDevice
  talos_device iface (cidr, vlans) = record {
    cidr = cidr;
    vlans = vlans;
    dhcp = false;
    interface = iface.name;
  }

  unfoldable pub each_interface : List Interface → Exec N.State (List TalosDevice)
  unfolding has_dhcp_tag
  each_interface [] = pure []
  each_interface (iface ∷ ifaces) = do
    addresses ← ask (N.ip_addresses_list (Param.interface_id (iface.id ∷ []) ∷ []))
    found ←
        if not (has_dhcp_tag iface.tags)
        then each_address iface addresses.results ("", [])
        else pure ("", [])
    rest ← each_interface ifaces
    pure (talos_device iface found ∷ rest)

  abbrev data_of_interfaces : Device → List Interface → Exec N.State MachineConfig
  data_of_interfaces device ifaces = do
    devices ← each_interface ifaces
    name ← deref device.name
    serial ← deref device.serial
    pure (record {
      hostname = name;
      interfaces = devices;
      node_labels = node_labels_of device serial;
    })

  unfoldable pub extract_talos_data : Device → Exec N.State MachineConfig
  extract_talos_data device = do
    interfaces ← ask (N.interfaces_list (Param.device_id (device.id ∷ []) ∷ []))
    data_of_interfaces device interfaces.results

  abbrev name_or_empty : Option String → String
  name_or_empty none = ""
  name_or_empty (some name) = name

  abbrev add_talos :
      Device → Reply MachineConfig → List Talos × List Error → List Talos × List Error
  add_talos device (bad e) (configs, errors) = (configs, errors ++ e ∷ [])
  add_talos device (good config) (configs, errors) =
      (configs ++ record { config = config; hostname = name_or_empty device.name } ∷ [], errors)

  unfoldable pub each_talos :
      List Device → List Talos × List Error → Exec N.State (List Talos × List Error)
  each_talos [] found = pure found
  each_talos (device ∷ devices) found = do
    r ← attempt (extract_talos_data device)
    each_talos devices (add_talos device r found)

  -- The configurations, and the errors that are joined into one.
  unfoldable pub create_talos_configs : DeviceFilters → Exec N.State (List Talos × List Error)
  create_talos_configs filters = do
    devices ← get_devices N (record filters { status = "active" ∷ [] })
    if devices.count == 0 then pure ([], []) else each_talos devices.results ([], [])
