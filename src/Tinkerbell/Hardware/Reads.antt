-- ===== src/Tinkerbell/Hardware/Reads.antt =====
-- hardware.go: what the making of Hardware objects does to NetBox.
use machinecfg.Prelude.{ℕ, String, List, [], ◌∷◌, Option, none, some, string_eq, nat_eq}
use machinecfg.Effect.{Reply, good, bad, Outcome}
use machinecfg.Effect.Moves.{Moves, Preorder, reads}
use machinecfg.Netbox.{Netbox, Device, Record}
use machinecfg.Kube.{Hardware}
use machinecfg.Butane.Config.{Config}
use machinecfg.Butane.Flatcar.Reads.{create_flatcar_ignition-Moves}
use machinecfg.Butane.Fcos.Reads.{create_fcos_ignition-Moves}
use machinecfg.Common.Filters.{DeviceFilters}
use machinecfg.Common.Reads.{
  get_devices-Moves, get_tagged_addresses_from_prefix_of_addr-Moves,
  get_system_disk_inventory_items-Moves,
}
use machinecfg.Tinkerbell.Hardware.Labels.{create_meta_from_device}
use machinecfg.Tinkerbell.Hardware.{
  get_mac_addr_from_iface_id, primary_mac, tagged_texts, non_empty_disks, system_disks,
  hardware_of_device, extract_hardware_data, or_left_out, hardwares_to_prune,
  create_hardwares_to_prune, embed_ignition, embed_kept, hardwares_of_devices, create_hardwares,
}

module _ (N : Netbox) {P : Preorder N.State} where
  get_mac_addr_from_iface_id-Moves : (id : Option ℕ) → Moves P (get_mac_addr_from_iface_id N id)
  unfolding get_mac_addr_from_iface_id
  get_mac_addr_from_iface_id-Moves id = search reads depth 12

  primary_mac-Moves : (id : ℕ) → Moves P (primary_mac N id)
  unfolding primary_mac
  primary_mac-Moves id = search (reads, get_mac_addr_from_iface_id-Moves) depth 12

  tagged_texts-Moves : (tag address : String) → Moves P (tagged_texts N tag address)
  unfolding tagged_texts
  tagged_texts-Moves tag address =
      search (reads, get_tagged_addresses_from_prefix_of_addr-Moves) depth 12

  non_empty_disks-Moves :
      (name : String) (items : List Record) → Moves P (non_empty_disks N name items)
  non_empty_disks-Moves name [] = search reads depth 4
  non_empty_disks-Moves name (item ∷ items) = search reads depth 4

  system_disks-Moves : (name : String) (id : ℕ) → Moves P (system_disks N name id)
  unfolding system_disks
  system_disks-Moves name id =
      search (reads, non_empty_disks-Moves, get_system_disk_inventory_items-Moves) depth 12

  create_meta_from_device-Moves : (device : Device) → Moves P (create_meta_from_device device)
  unfolding create_meta_from_device
  create_meta_from_device-Moves device = search reads depth 12

  hardware_of_device-Moves : (device : Device) → Moves P (hardware_of_device N device)
  unfolding hardware_of_device
  hardware_of_device-Moves device =
      search
        (
          reads, primary_mac-Moves, tagged_texts-Moves, system_disks-Moves,
          create_meta_from_device-Moves,
        )
        depth 24

  pub extract_hardware_data-Moves : (device : Device) → Moves P (extract_hardware_data N device)
  unfolding extract_hardware_data
  extract_hardware_data-Moves device = search (reads, hardware_of_device-Moves) depth 12

  or_left_out-Moves : (device : Device) (r : Reply Hardware) → Moves P (or_left_out N device r)
  or_left_out-Moves device (good hw) = search reads depth 4
  or_left_out-Moves device (bad e) = search reads depth 8

  hardwares_to_prune-step :
      (device : Device) (devices : List Device)
      → Moves P (hardwares_to_prune N devices)
      → Moves P (hardwares_to_prune N (device ∷ devices))
  unfolding hardwares_to_prune
  hardwares_to_prune-step device devices rest =
      search (reads, extract_hardware_data-Moves, or_left_out-Moves) depth 12

  hardwares_to_prune-Moves : (devices : List Device) → Moves P (hardwares_to_prune N devices)
  unfolding hardwares_to_prune
  hardwares_to_prune-Moves [] = search reads depth 4
  hardwares_to_prune-Moves (device ∷ devices) =
      hardwares_to_prune-step device devices (hardwares_to_prune-Moves devices)

  pub create_hardwares_to_prune-Moves :
      (filters : DeviceFilters) → Moves P (create_hardwares_to_prune N filters)
  unfolding create_hardwares_to_prune
  create_hardwares_to_prune-Moves filters =
      search (reads, get_devices-Moves, hardwares_to_prune-Moves) depth 12

  module _ (flatcar fcos : Config → Outcome String) where
    pub embed_ignition-Moves :
        (variant : Option String) (id : ℕ) (hw : Hardware)
        → Moves P (embed_ignition N flatcar fcos variant id hw)
    unfolding embed_ignition
    embed_ignition-Moves none id hw = search reads depth 4
    embed_ignition-Moves (some variant) id hw =
        search (reads, create_flatcar_ignition-Moves, create_fcos_ignition-Moves) depth 12

    embed_kept-Moves :
        (variant : Option String) (id : ℕ) (kept : Option Hardware)
        → Moves P (embed_kept N flatcar fcos variant id kept)
    embed_kept-Moves variant id none = search reads depth 4
    embed_kept-Moves variant id (some hw) = search (reads, embed_ignition-Moves) depth 8

    hardwares_of_devices-step :
        (variant : Option String) (device : Device) (devices : List Device)
        → Moves P (hardwares_of_devices N flatcar fcos variant devices)
        → Moves P (hardwares_of_devices N flatcar fcos variant (device ∷ devices))
    unfolding hardwares_of_devices
    hardwares_of_devices-step variant device devices rest =
        search (reads, extract_hardware_data-Moves, or_left_out-Moves, embed_kept-Moves) depth 12

    hardwares_of_devices-Moves :
        (variant : Option String) (devices : List Device)
        → Moves P (hardwares_of_devices N flatcar fcos variant devices)
    unfolding hardwares_of_devices
    hardwares_of_devices-Moves variant [] = search reads depth 4
    hardwares_of_devices-Moves variant (device ∷ devices) =
        hardwares_of_devices-step variant device devices
          (hardwares_of_devices-Moves variant devices)

    pub create_hardwares-Moves :
        (filters : DeviceFilters) (variant : Option String)
        → Moves P (create_hardwares N flatcar fcos filters variant)
    unfolding create_hardwares
    create_hardwares-Moves filters variant =
        search (reads, get_devices-Moves, hardwares_of_devices-Moves) depth 12
