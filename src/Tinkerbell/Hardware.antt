-- ===== src/Tinkerbell/Hardware.antt =====
-- hardware.go: Hardware objects made from the devices of NetBox. `flatcar_translation` and
-- `fcos_translation` stand for the translation of the two kinds of configuration by Butane.
pub mod Labels
pub mod Made
pub mod Extracted
pub mod Embedded
pub mod Picks
pub mod Created
pub mod ReadOnly
pub mod Reads
use machinecfg.Butane.Flatcar.{create_flatcar_ignition}
use machinecfg.Butane.Fcos.{create_fcos_ignition}
use machinecfg.Butane.Config.{Config}
use machinecfg.Prelude.{
  ℕ, ◌%◌, String, ◌<>◌, Bool, true, false, not, Option, none, some, List, [], ◌∷◌, ◌++◌, map, ltb,
  ◌==◌, string_eq, if◌then◌else◌,
}
use machinecfg.Effect.{
  Exec, Outcome, Reply, good, bad, error, pure, raise, ask, first, deref, attempt, wrap, ◌>>=◌,
}
use machinecfg.Text.{before, join, to_lower, itoa, quoted, int32_mod}
use machinecfg.Net.{parse_cidr_mask, mask_text}
use machinecfg.Netbox.{
  Netbox, Nullable, Page, Param, Brief, Device, Interface, IpAddress, Record, get_nullable, is_set,
}
use machinecfg.Kube.{Hardware, HardwareInterface, HardwareIp, Metadata}
use machinecfg.Common.{
  get_devices, get_system_disk_inventory_items, get_tagged_addresses_from_prefix_of_addr,
  from_ip_addresses_to_strings,
}
use machinecfg.Common.Filters.{DeviceFilters}
use machinecfg.Tinkerbell.Hardware.Labels.{Meta, create_meta_from_device}
use machinecfg.Tinkerbell.Names.{status_staged}

abbrev get_addr_from_cidr : String → String
get_addr_from_cidr cidr = before b'/' cidr

unfoldable pub cidr_to_netmask : String → Reply String
cidr_to_netmask cidr = elim (parse_cidr_mask cidr) [
  | none ↦ bad (error ("invalid CIDR address: " <> cidr))
  | some mask ↦ good (mask_text mask)
]

-- The primary MAC address, else the first of the others, else nothing.
abbrev mac_of : String → List String → String
mac_of primary [] = primary
mac_of primary (mac ∷ macs) = if not (primary == "") then primary else mac

module _ (N : Netbox) where
  unfoldable pub get_mac_addr_from_iface_id : Option ℕ → Exec N.State String
  get_mac_addr_from_iface_id interface_id = do
    id ← deref interface_id
    iface ← ask (N.interfaces_retrieve (id % int32_mod))
    let result = mac_of iface.primary_mac_address iface.mac_addresses
    if result == ""
        then raise (
            error (
              "iface "
              <> iface.name
              <> ", id "
              <> itoa iface.id
              <> " does not have any MAC address"))
        else pure result

  -- The MAC address of the interface that holds the address; no address gives no text.
  unfoldable pub primary_mac : ℕ → Exec N.State String
  primary_mac address_id = do
    result ←
        wrap (λ t. "cannot read the IPv4 address " <> itoa address_id <> ": " <> t)
          (ask (N.ip_addresses_list (Param.id (address_id ∷ []) ∷ [])))
    if ltb 0 result.count
        then (do
          addr ← first result.results
          mac ← get_mac_addr_from_iface_id addr.assigned_object_id
          pure (to_lower mac))
        else pure ""

  unfoldable pub tagged_texts : String → String → Exec N.State (List String)
  tagged_texts tag address = do
    addresses ← get_tagged_addresses_from_prefix_of_addr N tag address
    pure (from_ip_addresses_to_strings addresses)

  abbrev disk_names : List Record → List String
  disk_names items = map (λ (item : Record). item.name) items

  abbrev non_empty_disks : String → List Record → Exec N.State (List String)
  non_empty_disks device_name [] =
      raise (error ("device " <> device_name <> " has no system-disk inventory item"))
  non_empty_disks device_name (item ∷ items) = pure (disk_names (item ∷ items))

  -- The disks; a device without any is an error.
  unfoldable pub system_disks : String → ℕ → Exec N.State (List String)
  system_disks device_name device_id = do
    items ←
        wrap
          (λ t. "cannot fetch system-disk inventory items for device " <> device_name <> ": " <> t)
          (get_system_disk_inventory_items N device_id)
    non_empty_disks device_name items

  abbrev hardware_of :
      Meta → String → String → String → HardwareIp → List String → List String → String → Hardware
  hardware_of meta hostname mac arch ip name_servers disks manufacturer = record {
    name = meta.name;
    namespace = meta.namespace;
    labels = meta.labels;
    annotations = [];
    interfaces =
        record {
          dhcp = some (record {
            mac = mac;
            hostname = hostname;
            name_servers = name_servers;
            arch = arch;
            uefi = true;
            ip = ip;
          });
          disable_dhcp = false;
          netboot = some (record { allow_pxe = some true; allow_workflow = some true });
        }
        ∷ [];
    metadata = some (record {
      hostname = hostname;
      id = mac;
      ips = ip ∷ [];
      manufacturer_slug = to_lower manufacturer;
    });
    disks = disks;
    user_data = none;
    vendor_data = none;
  }

  -- The function after its first test. A pointer that is read while nil is a panic.
  unfoldable pub hardware_of_device : Device → Exec N.State Hardware
  hardware_of_device device = do
    ip4 ← deref (get_nullable device.primary_ip4)
    mac ← primary_mac ip4.id
    ip ← deref (get_nullable device.primary_ip)
    gateways ← tagged_texts "gateway" ip4.address
    name_servers ← tagged_texts "dns" ip4.address
    netmask ← ask (λ _. cidr_to_netmask ip.address)
    meta ← create_meta_from_device device
    disks ← system_disks meta.name device.id
    platform ← deref (get_nullable device.platform)
    let hardware_ip : HardwareIp = record {
      address = get_addr_from_cidr ip4.address;
      netmask = netmask;
      gateway = join "" gateways;
    }
    pure (
        hardware_of meta meta.name mac platform.name hardware_ip name_servers disks
          device.manufacturer)

  unfoldable pub extract_hardware_data : Device → Exec N.State Hardware
  extract_hardware_data device =
      if not (is_set device.primary_ip4)
      then (do
        name ← deref device.name
        raise (error ("device " <> name <> " does not have any primary IPv4 address")))
      else hardware_of_device device

-- The status filter that each of the two lists asks for.
abbrev pub with_statuses : List String → DeviceFilters → DeviceFilters
with_statuses statuses filters = record filters { status = statuses }

abbrev pub add_kept : Option Hardware → List Hardware → List Hardware
add_kept none rest = rest
add_kept (some hw) rest = hw ∷ rest

module _ (N : Netbox) where
  -- A device that fails is logged with its name, and left out.
  abbrev or_left_out : Device → Reply Hardware → Exec N.State (Option Hardware)
  or_left_out device (good hw) = pure (some hw)
  or_left_out device (bad e) = do name ← deref device.name; pure none

  unfoldable pub hardwares_to_prune : List Device → Exec N.State (List Hardware)
  hardwares_to_prune [] = pure []
  hardwares_to_prune (device ∷ devices) = do
    extracted ← attempt (extract_hardware_data N device)
    kept ← or_left_out device extracted
    rest ← hardwares_to_prune devices
    pure (add_kept kept rest)

  unfoldable pub create_hardwares_to_prune : DeviceFilters → Exec N.State (List Hardware)
  create_hardwares_to_prune filters = do
    devices ← get_devices N (with_statuses ("offline" ∷ "planned" ∷ []) filters)
    hardwares_to_prune devices.results

module _ (N : Netbox) (flatcar_translation fcos_translation : Config → Outcome String) where
  abbrev with_vendor_data : Hardware → Reply String → Hardware
  with_vendor_data hw (good ignition) = record hw { vendor_data = some ignition }
  with_vendor_data hw (bad e) = hw

  -- An ignition that cannot be made is left out, as is that of an unknown variant.
  unfoldable pub embed_ignition : Option String → ℕ → Hardware → Exec N.State Hardware
  embed_ignition none device_id hw = pure hw
  embed_ignition (some variant) device_id hw =
      if variant == "flatcar"
      then (do
        r ← attempt (create_flatcar_ignition N flatcar_translation device_id)
        pure (with_vendor_data hw r))
      else if variant == "fcos"
      then (do
        r ← attempt (create_fcos_ignition N fcos_translation device_id)
        pure (with_vendor_data hw r))
      else pure hw

  abbrev embed_kept : Option String → ℕ → Option Hardware → Exec N.State (Option Hardware)
  embed_kept variant device_id none = pure none
  embed_kept variant device_id (some hw) = do
    embedded ← embed_ignition variant device_id hw
    pure (some embedded)

  unfoldable pub hardwares_of_devices : Option String → List Device → Exec N.State (List Hardware)
  hardwares_of_devices variant [] = pure []
  hardwares_of_devices variant (device ∷ devices) = do
    extracted ← attempt (extract_hardware_data N device)
    kept ← or_left_out N device extracted
    embedded ← embed_kept variant device.id kept
    rest ← hardwares_of_devices variant devices
    pure (add_kept embedded rest)

  unfoldable pub create_hardwares : DeviceFilters → Option String → Exec N.State (List Hardware)
  create_hardwares filters variant = do
    devices ← get_devices N (with_statuses (status_staged ∷ []) filters)
    hardwares_of_devices variant devices.results
