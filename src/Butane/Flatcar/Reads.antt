-- ===== src/Butane/Flatcar/Reads.antt =====
-- flatcar.go: what the making of Flatcar configurations does to NetBox.
use machinecfg.Prelude.{ℕ, String, Option, none, some, List, [], ◌∷◌, string_eq, nat_eq}
use machinecfg.Effect.{Outcome, Error, Reply, good, bad}
use machinecfg.Effect.Moves.{Moves, Preorder, reads}
use machinecfg.Netbox.{Netbox, Page, Device, Interface, IpAddress, Prefix, Vlan}
use machinecfg.Common.Filters.{DeviceFilters}
use machinecfg.Common.Reads.{get_devices-Moves, get_tagged_addresses_from_prefix-Moves}
use machinecfg.Butane.Config.{File, Config}
use machinecfg.Butane.Config.Reads.{translated-Moves, create_dcim_file-Moves, get_hostname-Moves}
use machinecfg.Butane.Networkd.{Netdev, set_values_to_network_device, append_network_file_for_vlan}
use machinecfg.Butane.Flatcar.{
  Extracted, Flatcar, at_vlan, at_prefixes, each_address, each_interface, extract_flatcar_data,
  add_flatcar, each_flatcar, create_flatcars, ignition_of, create_flatcar_ignition,
}

module _ (N : Netbox) {P : Preorder N.State} where
  pub set_values_to_network_device-Moves :
      (iface : Interface) (addr : IpAddress) (prefix : Prefix)
      → Moves P (set_values_to_network_device N iface addr prefix)
  unfolding set_values_to_network_device
  set_values_to_network_device-Moves iface addr prefix =
      search (reads, get_tagged_addresses_from_prefix-Moves) depth 12

  pub append_network_file_for_vlan-Moves :
      (files : List File) (netdev : Netdev) (addr : IpAddress) (prefix : Prefix)
      → Moves P (append_network_file_for_vlan N files netdev addr prefix)
  unfolding append_network_file_for_vlan
  append_network_file_for_vlan-Moves files netdev addr prefix =
      search (reads, get_tagged_addresses_from_prefix-Moves) depth 12

  at_vlan-Moves :
      (iface : Interface) (addr : IpAddress) (x : Extracted) (prefix : Prefix) (vlan : Option Vlan)
      → Moves P (at_vlan N iface addr x prefix vlan)
  at_vlan-Moves iface addr x prefix none =
      search (reads, set_values_to_network_device-Moves) depth 12
  at_vlan-Moves iface addr x prefix (some vlan) =
      search (reads, set_values_to_network_device-Moves, append_network_file_for_vlan-Moves) depth
        12

  at_prefixes-Moves :
      (iface : Interface) (addr : IpAddress) (x : Extracted) (r : Reply (Page Prefix))
      → Moves P (at_prefixes N iface addr x r)
  at_prefixes-Moves iface addr x (bad e) = search reads depth 4
  at_prefixes-Moves iface addr x (good prefixes) = search (reads, at_vlan-Moves) depth 12

  each_address-Moves :
      (iface : Interface) (addresses : List IpAddress) (x : Extracted)
      → Moves P (each_address N iface addresses x)
  unfolding each_address
  each_address-Moves iface [] x = search reads depth 4
  each_address-Moves iface (addr ∷ addresses) x =
      let rest = λ (x' : Extracted). each_address-Moves iface addresses x' in
      search (reads, at_prefixes-Moves, rest) depth 12

  each_interface-Moves :
      (ifaces : List Interface) (x : Extracted) → Moves P (each_interface N ifaces x)
  unfolding each_interface
  each_interface-Moves [] x = search reads depth 4
  each_interface-Moves (iface ∷ ifaces) x =
      let rest = λ (x' : Extracted). each_interface-Moves ifaces x' in
      search (reads, each_address-Moves, rest) depth 12

  extract_flatcar_data-Moves : (device : Device) → Moves P (extract_flatcar_data N device)
  unfolding extract_flatcar_data
  extract_flatcar_data-Moves device =
      search (reads, each_interface-Moves, create_dcim_file-Moves, get_hostname-Moves) depth 16

  add_flatcar-Moves :
      (device : Device) (r : Reply Config) (found : List Flatcar × List Error)
      → Moves P (add_flatcar N device r found)
  add_flatcar-Moves device (bad e) (configs, errors) = search reads depth 4
  add_flatcar-Moves device (good config) (configs, errors) = search reads depth 8

  each_flatcar-Moves :
      (devices : List Device) (found : List Flatcar × List Error)
      → Moves P (each_flatcar N devices found)
  unfolding each_flatcar
  each_flatcar-Moves [] found = search reads depth 4
  each_flatcar-Moves (device ∷ devices) found =
      let rest = λ (found' : List Flatcar × List Error). each_flatcar-Moves devices found' in
      search (reads, extract_flatcar_data-Moves, add_flatcar-Moves, rest) depth 12

  pub create_flatcars-Moves : (filters : DeviceFilters) → Moves P (create_flatcars N filters)
  unfolding create_flatcars
  create_flatcars-Moves filters = search (reads, get_devices-Moves, each_flatcar-Moves) depth 12

  module _ (translate : Config → Outcome String) where
    ignition_of-Moves : (r : Reply Config) → Moves P (ignition_of N translate r)
    ignition_of-Moves (good config) = translated-Moves _
    ignition_of-Moves (bad e) = search reads depth 4

    pub create_flatcar_ignition-Moves : (id : ℕ) → Moves P (create_flatcar_ignition N translate id)
    unfolding create_flatcar_ignition
    create_flatcar_ignition-Moves id =
        search (reads, extract_flatcar_data-Moves, ignition_of-Moves) depth 12
