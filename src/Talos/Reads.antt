-- ===== src/Talos/Reads.antt =====
-- talosconfig.go: what the making of Talos configurations does to NetBox.
use machinecfg.Prelude.{String, List, [], ◌∷◌, string_eq, nat_eq}
use machinecfg.Effect.{Error, Reply, good, bad}
use machinecfg.Effect.Moves.{Moves, Preorder, reads}
use machinecfg.Netbox.{Netbox, Page, Device, Interface, IpAddress, Prefix}
use machinecfg.Common.Filters.{DeviceFilters}
use machinecfg.Common.Reads.{get_devices-Moves}
use machinecfg.Talos.{
  TalosVlan, Talos, at_prefixes, each_address, each_interface, extract_talos_data, each_talos,
  create_talos_configs,
}

module _ (N : Netbox) {P : Preorder N.State} where
  at_prefixes-Moves :
      (iface : Interface) (addr : IpAddress) (found : String × List TalosVlan)
      (r : Reply (Page Prefix))
      → Moves P (at_prefixes N iface addr found r)
  at_prefixes-Moves iface addr found (bad e) = search reads depth 4
  at_prefixes-Moves iface addr found (good prefixes) = search reads depth 12

  each_address-Moves :
      (iface : Interface) (addresses : List IpAddress) (found : String × List TalosVlan)
      → Moves P (each_address N iface addresses found)
  unfolding each_address
  each_address-Moves iface [] found = search reads depth 4
  each_address-Moves iface (addr ∷ addresses) found =
      let rest = λ (found' : String × List TalosVlan). each_address-Moves iface addresses found' in
      search (reads, at_prefixes-Moves, rest) depth 12

  each_interface-step :
      (iface : Interface) (ifaces : List Interface)
      → Moves P (each_interface N ifaces)
      → Moves P (each_interface N (iface ∷ ifaces))
  unfolding each_interface
  each_interface-step iface ifaces rest = search (reads, each_address-Moves) depth 12

  each_interface-Moves : (ifaces : List Interface) → Moves P (each_interface N ifaces)
  unfolding each_interface
  each_interface-Moves [] = search reads depth 4
  each_interface-Moves (iface ∷ ifaces) =
      each_interface-step iface ifaces (each_interface-Moves ifaces)

  extract_talos_data-Moves : (device : Device) → Moves P (extract_talos_data N device)
  unfolding extract_talos_data
  extract_talos_data-Moves device = search (reads, each_interface-Moves) depth 16

  each_talos-Moves :
      (devices : List Device) (found : List Talos × List Error)
      → Moves P (each_talos N devices found)
  unfolding each_talos
  each_talos-Moves [] found = search reads depth 4
  each_talos-Moves (device ∷ devices) found =
      let rest = λ (found' : List Talos × List Error). each_talos-Moves devices found' in
      search (reads, extract_talos_data-Moves, rest) depth 12

  pub create_talos_configs-Moves :
      (filters : DeviceFilters) → Moves P (create_talos_configs N filters)
  unfolding create_talos_configs
  create_talos_configs-Moves filters = search (reads, get_devices-Moves, each_talos-Moves) depth 12
