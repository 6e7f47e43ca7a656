-- ===== src/Butane/Fcos/Reads.antt =====
-- fcos.go: what the making of Fedora CoreOS configurations does to NetBox.
use machinecfg.Prelude.{ℕ, String, List, [], ◌∷◌, string_eq, nat_eq}
use machinecfg.Effect.{Outcome, Reply, good, bad}
use machinecfg.Effect.Moves.{Moves, Preorder, reads}
use machinecfg.Netbox.{Netbox, Page, Device, Interface, IpAddress, Prefix}
use machinecfg.Common.Filters.{DeviceFilters}
use machinecfg.Common.Reads.{get_devices-Moves, get_tagged_addresses_from_prefix_of_addr-Moves}
use machinecfg.Butane.Config.{File, Config}
use machinecfg.Butane.Config.Reads.{translated-Moves, create_dcim_file-Moves, get_hostname-Moves}
use machinecfg.Butane.Fcos.{
  Fcos, append_file_for_iface, at_prefixes, each_address, each_interface, extract_fcos_data,
  add_fcos, each_fcos, create_fcoss, ignition_of, create_fcos_ignition,
}

module _ (N : Netbox) {P : Preorder N.State} where
  append_file_for_iface-Moves :
      (files : List File) (iface : Interface) (addr : IpAddress)
      → Moves P (append_file_for_iface N files iface addr)
  unfolding append_file_for_iface
  append_file_for_iface-Moves files iface addr =
      search (reads, get_tagged_addresses_from_prefix_of_addr-Moves) depth 14

  at_prefixes-Moves :
      (iface : Interface) (addr : IpAddress) (files : List File) (r : Reply (Page Prefix))
      → Moves P (at_prefixes N iface addr files r)
  at_prefixes-Moves iface addr files (bad e) = search reads depth 4
  at_prefixes-Moves iface addr files (good prefixes) =
      search (reads, append_file_for_iface-Moves) depth 14

  each_address-Moves :
      (iface : Interface) (addresses : List IpAddress) (files : List File)
      → Moves P (each_address N iface addresses files)
  unfolding each_address
  each_address-Moves iface [] files = search reads depth 4
  each_address-Moves iface (addr ∷ addresses) files =
      let rest = λ (files' : List File). each_address-Moves iface addresses files' in
      search (reads, at_prefixes-Moves, rest) depth 12

  each_interface-Moves :
      (ifaces : List Interface) (files : List File) → Moves P (each_interface N ifaces files)
  unfolding each_interface
  each_interface-Moves [] files = search reads depth 4
  each_interface-Moves (iface ∷ ifaces) files =
      let rest = λ (files' : List File). each_interface-Moves ifaces files' in
      search (reads, each_address-Moves, rest) depth 12

  extract_fcos_data-Moves : (device : Device) → Moves P (extract_fcos_data N device)
  unfolding extract_fcos_data
  extract_fcos_data-Moves device =
      search (reads, each_interface-Moves, create_dcim_file-Moves, get_hostname-Moves) depth 16

  add_fcos-Moves :
      (device : Device) (r : Reply Config) (configs : List Fcos)
      → Moves P (add_fcos N device r configs)
  add_fcos-Moves device (bad e) configs = search reads depth 4
  add_fcos-Moves device (good config) configs = search reads depth 8

  each_fcos-Moves :
      (devices : List Device) (configs : List Fcos) → Moves P (each_fcos N devices configs)
  unfolding each_fcos
  each_fcos-Moves [] configs = search reads depth 4
  each_fcos-Moves (device ∷ devices) configs =
      let rest = λ (configs' : List Fcos). each_fcos-Moves devices configs' in
      search (reads, extract_fcos_data-Moves, add_fcos-Moves, rest) depth 12

  pub create_fcoss-Moves : (filters : DeviceFilters) → Moves P (create_fcoss N filters)
  unfolding create_fcoss
  create_fcoss-Moves filters = search (reads, get_devices-Moves, each_fcos-Moves) depth 12

  module _ (translate : Config → Outcome String) where
    ignition_of-Moves : (r : Reply Config) → Moves P (ignition_of N translate r)
    ignition_of-Moves (good config) = translated-Moves _
    ignition_of-Moves (bad e) = search reads depth 4

    pub create_fcos_ignition-Moves : (id : ℕ) → Moves P (create_fcos_ignition N translate id)
    unfolding create_fcos_ignition
    create_fcos_ignition-Moves id =
        search (reads, extract_fcos_data-Moves, ignition_of-Moves) depth 12
