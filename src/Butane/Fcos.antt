-- ===== src/Butane/Fcos.antt =====
-- fcos.go: the configuration of a device that runs Fedora CoreOS, with NetworkManager.
pub mod Laws
pub mod Reads
use machinecfg.Prelude.{
  ℕ, String, ◌<>◌, Option, none, some, List, [], ◌∷◌, ◌++◌, map, ltb, if◌then◌else◌,
}
use machinecfg.Effect.{
  crash, Exec, Reply, good, bad, Outcome, pure, raise, ask, first, deref, attempt, ◌>>=◌,
}
use machinecfg.Text.{itoa, join}
use machinecfg.Netbox.{Netbox, Page, Param, Device, Interface, IpAddress, Prefix}
use machinecfg.Common.Filters.{DeviceFilters}
use machinecfg.Common.{
  get_devices, is_vlan_id_in_vlan_list, has_dhcp_tag, get_tagged_addresses_from_prefix_of_addr,
}
use machinecfg.Butane.Config.{File, Config, translated, create_dcim_file, get_hostname}

pub record Fcos : Type 0 where
  pub config : Config
  pub hostname : String

abbrev pub connection_path : String → String
connection_path name = "/etc/NetworkManager/system-connections/" <> name <> ".nmconnection"

abbrev addresses_of : List IpAddress → List String
addresses_of addresses = map (λ (a : IpAddress). a.address) addresses

-- `appendNetworkManagerFileForVlan`
unfoldable pub append_file_for_vlan : List File → ℕ → Interface → List File
append_file_for_vlan files vlan_id iface =
    let name = iface.name <> "." <> itoa vlan_id in
    files
    ++ record {
      path = connection_path name;
      contents =
          "[connection]\nid="
          <> name
          <> "\ntype=vlan\ninterface-name="
          <> name
          <> "\n[vlan]egress-priority-map=\nflags=1\nid="
          <> itoa vlan_id
          <> "\ningress-priority-map=\nparent="
          <> iface.name;
    }
      ∷ []

module _ (N : Netbox) where
  abbrev connection : Interface → String
  connection iface =
      "[connection]\nid=" <> iface.name <> "\ntype=ethernet\ninterface-name=" <> iface.name <> "\n"

  abbrev ipv4 : Interface → IpAddress → Exec N.State String
  ipv4 iface addr =
      if has_dhcp_tag addr.tags then pure (connection iface <> "\n[ipv4]method=auto") else (do
        gateways ← get_tagged_addresses_from_prefix_of_addr N "gateway" addr.address
        dns ← get_tagged_addresses_from_prefix_of_addr N "dns" addr.address
        pure (
            connection iface
            <> "\n[ipv4]address1="
            <> addr.address
            <> ","
            <> join "," (addresses_of gateways)
            <> "\n"
            <> "\ndhcp-hostname="
            <> iface.name
            <> "\ndns="
            <> join "," (addresses_of dns)
            <> ";\nmay-fail=false\nmethod=manual"))

  -- `appendNetworkManagerFileForIface`
  unfoldable pub append_file_for_iface :
      List File → Interface → IpAddress → Exec N.State (List File)
  unfolding has_dhcp_tag
  append_file_for_iface files iface addr = do
    content ← ipv4 iface addr
    pure (files ++ record { path = connection_path iface.name; contents = content } ∷ [])

  -- The VLAN of the prefix is read whether or not there is one.
  abbrev at_prefix : Interface → IpAddress → List File → Prefix → Exec N.State (List File)
  at_prefix iface addr files prefix = do
    vlan ← deref prefix.vlan
    if is_vlan_id_in_vlan_list vlan.vid iface.tagged_vlans
        then pure (append_file_for_vlan files vlan.vid iface)
        else append_file_for_iface files iface addr

  abbrev at_prefixes :
      Interface → IpAddress → List File → Reply (Page Prefix) → Exec N.State (List File)
  at_prefixes iface addr files (bad e) = pure files
  at_prefixes iface addr files (good prefixes) =
      if ltb 0 prefixes.count
      then (do prefix ← first prefixes.results; at_prefix iface addr files prefix)
      else pure files

  unfoldable pub each_address : Interface → List IpAddress → List File → Exec N.State (List File)
  unfolding append_file_for_vlan is_vlan_id_in_vlan_list
  each_address iface [] files = pure files
  each_address iface (addr ∷ addresses) files = do
    prefixes ← attempt (ask (N.prefixes_list (Param.contains addr.address ∷ [])))
    files' ← at_prefixes iface addr files prefixes
    each_address iface addresses files'

  unfoldable pub each_interface : List Interface → List File → Exec N.State (List File)
  each_interface [] files = pure files
  each_interface (iface ∷ ifaces) files = do
    addresses ← ask (N.ip_addresses_list (Param.interface_id (iface.id ∷ []) ∷ []))
    files' ← each_address iface addresses.results files
    each_interface ifaces files'

  unfoldable pub extract_fcos_data : Device → Exec N.State Config
  extract_fcos_data device = do
    interfaces ← ask (N.interfaces_list (Param.device_id (device.id ∷ []) ∷ []))
    files ← each_interface interfaces.results []
    dcim ← create_dcim_file device
    hostname ← get_hostname N device
    pure (record {
      version = "1.6.0";
      variant = "fcos";
      files =
          files
          ++ record { path = "/etc/dcim.yaml"; contents = dcim }
            ∷ record { path = "/etc/hostname"; contents = hostname }
            ∷ [];
    })

  abbrev add_fcos : Device → Reply Config → List Fcos → Exec N.State (List Fcos)
  add_fcos device (bad e) configs = pure configs
  add_fcos device (good config) configs = do
    hostname ← deref device.name
    pure (configs ++ record { config = config; hostname = hostname } ∷ [])

  unfoldable pub each_fcos : List Device → List Fcos → Exec N.State (List Fcos)
  each_fcos [] configs = pure configs
  each_fcos (device ∷ devices) configs = do
    r ← attempt (extract_fcos_data device)
    configs' ← add_fcos device r configs
    each_fcos devices configs'

  -- The error of a device is logged, and is not the error that is returned.
  unfoldable pub create_fcoss : DeviceFilters → Exec N.State (List Fcos)
  create_fcoss filters = do
    devices ← get_devices N (record filters { status = "staged" ∷ [] })
    each_fcos devices.results []

  module _ (translate : Config → Outcome String) where
    abbrev ignition_of : Reply Config → Exec N.State String
    ignition_of (good config) = translated (translate config)
    ignition_of (bad e) = crash

    unfoldable pub create_fcos_ignition : ℕ → Exec N.State String
    create_fcos_ignition device_id = do
      devices ← ask (N.devices_list (Param.id (device_id ∷ []) ∷ []))
      device ← first devices.results
      butane ← attempt (extract_fcos_data device)
      ignition_of butane
