-- ===== src/Butane/Flatcar.antt =====
-- flatcar.go: the configuration of a device that runs Flatcar.
pub mod Laws
pub mod Found
pub mod Files
pub mod Reads
use machinecfg.Prelude.{
  ℕ, String, Bool, true, false, Option, none, some, List, [], ◌∷◌, ◌++◌, ltb, if◌then◌else◌,
}
use machinecfg.Effect.{
  crash, Exec, Reply, good, bad, Error, Outcome, pure, raise, ask, first, deref, attempt, ◌>>=◌,
}
use machinecfg.Netbox.{Netbox, Page, Param, Device, Interface, IpAddress, Prefix, Vlan}
use machinecfg.Common.Filters.{DeviceFilters}
use machinecfg.Common.{get_devices, is_vlan_id_in_vlan_list}
use machinecfg.Butane.Config.{File, Config, translated, create_dcim_file, get_hostname}
use machinecfg.Butane.Networkd.{
  NetworkdDevice, Netdev, no_device, append_network_file_for_iface, append_netdev_confs,
  set_values_to_network_device, append_network_file_for_vlan,
}

-- The variables of the loops of `extractFlatcarData`.
pub record Extracted : Type 0 where
  pub files : List File
  pub netdevs : List Netdev
  pub device : NetworkdDevice

pub record Flatcar : Type 0 where
  pub config : Config
  pub hostname : String

module _ (N : Netbox) where
  abbrev on_device : Interface → IpAddress → Extracted → Prefix → Exec N.State Extracted
  on_device iface addr x prefix = do
    device ← set_values_to_network_device N iface addr prefix
    pure (record x { device = device })

  abbrev on_vlan : IpAddress → Extracted → Prefix → Vlan → Exec N.State Extracted
  on_vlan addr x prefix vlan =
      let netdev : Netdev = record { name = vlan.name; kind = "vlan"; id = vlan.vid } in
      do
        files ← append_network_file_for_vlan N x.files netdev addr prefix
        pure (record x { files = files; netdevs = x.netdevs ++ netdev ∷ [] })

  abbrev at_vlan : Interface → IpAddress → Extracted → Prefix → Option Vlan → Exec N.State Extracted
  at_vlan iface addr x prefix none = on_device iface addr x prefix
  at_vlan iface addr x prefix (some vlan) =
      if is_vlan_id_in_vlan_list vlan.vid iface.tagged_vlans
      then on_vlan addr x prefix vlan
      else on_device iface addr x prefix

  -- A list of prefixes that cannot be read is logged.
  abbrev at_prefixes :
      Interface → IpAddress → Extracted → Reply (Page Prefix) → Exec N.State Extracted
  at_prefixes iface addr x (bad e) = pure x
  at_prefixes iface addr x (good prefixes) =
      if ltb 0 prefixes.count
      then (do prefix ← first prefixes.results; at_vlan iface addr x prefix prefix.vlan)
      else pure x

  unfoldable pub each_address : Interface → List IpAddress → Extracted → Exec N.State Extracted
  unfolding is_vlan_id_in_vlan_list
  each_address iface [] x = pure x
  each_address iface (addr ∷ addresses) x = do
    prefixes ← attempt (ask (N.prefixes_list (Param.contains addr.address ∷ [])))
    x' ← at_prefixes iface addr x prefixes
    each_address iface addresses x'

  unfoldable pub each_interface : List Interface → Extracted → Exec N.State Extracted
  each_interface [] x = pure x
  each_interface (iface ∷ ifaces) x = do
    addresses ← ask (N.ip_addresses_list (Param.interface_id (iface.id ∷ []) ∷ []))
    x' ← each_address iface addresses.results x
    each_interface ifaces x'

  abbrev network_files : Extracted → List File
  network_files x =
      append_network_file_for_iface (append_netdev_confs x.files x.netdevs) x.device x.netdevs

  unfoldable pub extract_flatcar_data : Device → Exec N.State Config
  unfolding append_netdev_confs append_network_file_for_iface
  extract_flatcar_data device = do
    interfaces ← ask (N.interfaces_list (Param.device_id (device.id ∷ []) ∷ []))
    x ← each_interface interfaces.results (record { files = []; netdevs = []; device = no_device })
    dcim ← create_dcim_file device
    hostname ← get_hostname N device
    pure (record {
      version = "1.1.0";
      variant = "flatcar";
      files =
          network_files x
          ++ record { path = "/etc/dcim.yaml"; contents = dcim }
            ∷ record { path = "/etc/hostname"; contents = hostname }
            ∷ [];
    })

  abbrev add_flatcar :
      Device → Reply Config → List Flatcar × List Error → Exec N.State (List Flatcar × List Error)
  add_flatcar device (bad e) (configs, errors) = pure (configs, errors ++ e ∷ [])
  add_flatcar device (good config) (configs, errors) = do
    hostname ← deref device.name
    pure (configs ++ record { config = config; hostname = hostname } ∷ [], errors)

  unfoldable pub each_flatcar :
      List Device → List Flatcar × List Error → Exec N.State (List Flatcar × List Error)
  each_flatcar [] found = pure found
  each_flatcar (device ∷ devices) found = do
    r ← attempt (extract_flatcar_data device)
    found' ← add_flatcar device r found
    each_flatcar devices found'

  -- The configurations, and the errors that are joined into one.
  unfoldable pub create_flatcars : DeviceFilters → Exec N.State (List Flatcar × List Error)
  create_flatcars filters = do
    devices ← get_devices N (record filters { status = "staged" ∷ [] })
    each_flatcar devices.results ([], [])

  module _ (translate : Config → Outcome String) where
    -- After an error of the extraction, the pointer to the configuration is nil, and the call of
    -- its `ToIgn3_4`, a method of values, panics.
    abbrev ignition_of : Reply Config → Exec N.State String
    ignition_of (good config) = translated (translate config)
    ignition_of (bad e) = crash

    unfoldable pub create_flatcar_ignition : ℕ → Exec N.State String
    create_flatcar_ignition device_id = do
      devices ← ask (N.devices_list (Param.id (device_id ∷ []) ∷ []))
      device ← first devices.results
      butane ← attempt (extract_flatcar_data device)
      ignition_of butane
