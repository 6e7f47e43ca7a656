-- ===== src/Examples/Configs.antt =====
-- The theorems on machine configurations, on the small NetBox.
use machinecfg.Prelude.{◌+◌, ◌≡◌, refl, List, [], ◌∷◌, length, some, none, arith, ◌≢◌}
use machinecfg.Effect.{Error, ok, panic, good}
use machinecfg.Effect.Meets.{EndsIn}
use machinecfg.Netbox.{Netbox, Interface, IpAddress, Prefix, Vlan}
use machinecfg.Netbox.Pages.{HasPages}
use machinecfg.Butane.Networkd.{NetworkdDevice, set_values_to_network_device}
use machinecfg.Butane.Networkd.Laws.{Configures, set_values_to_network_device-Configures}
use machinecfg.Butane.Flatcar.{Flatcar, extract_flatcar_data, each_flatcar}
use machinecfg.Butane.Flatcar.Laws.{each_flatcar-total}
use machinecfg.Butane.Flatcar.Found.{IsComplete}
use machinecfg.Butane.Flatcar.Files.{extract_flatcar_data-IsComplete}
use machinecfg.Effect.Reads.{Ended}
use machinecfg.Butane.Fcos.Laws.{each_address-needs_vlan, nothing_extracted}
use machinecfg.Butane.Fcos
use machinecfg.Butane.Flatcar
use machinecfg.Talos.{extract_talos_data}
use machinecfg.Talos.Laws.{IsMadeOf, extract_talos_data-IsMadeOf}
use machinecfg.Examples.{small_netbox, small_netbox-HasPages, store, first_device, page_of}

abbrev eth0 : Interface
eth0 = record {
  id = 3;
  name = "eth0";
  mac_address = none;
  primary_mac_address = "";
  mac_addresses = [];
  tags = [];
  tagged_vlans = [];
}

abbrev dhcp_address : IpAddress
dhcp_address = record {
  id = 4;
  address = "10.0.0.4/24";
  display = "10.0.0.4/24";
  url = "";
  dns_name = none;
  status = "active";
  tags = "dhcp" ∷ [];
  assigned_object_id = none;
}

abbrev office : Prefix
office = record { id = 5; display = "10.0.0.0/24"; vlan = none; custom_fields = [] }

set_values_to_network_device-Configures_example :
    (device : NetworkdDevice) × ((set_values_to_network_device small_netbox eth0 dhcp_address office
        store).0
      ≡ ok device)
    × Configures small_netbox eth0 dhcp_address device
set_values_to_network_device-Configures_example =
    set_values_to_network_device-Configures small_netbox eth0 dhcp_address office store

-- One interface with one address, of which the prefix is that of a VLAN.
abbrev storage : Vlan
storage = record { vid = 30; name = "storage" }

abbrev trunk : Interface
trunk = record eth0 { tagged_vlans = storage ∷ [] }

abbrev storage_address : IpAddress
storage_address = record dhcp_address { address = "10.3.0.4/24" }

abbrev vlan_netbox : Netbox
vlan_netbox = record small_netbox {
  interfaces_list = λ q s. good (page_of (trunk ∷ []));
  ip_addresses_list = λ q s. good (page_of (storage_address ∷ []));
  prefixes_list = λ q s. good (page_of (record office { vlan = some storage } ∷ []));
}

vlan_netbox-HasPages : HasPages vlan_netbox
vlan_netbox-HasPages = record {
  clusters = small_netbox-HasPages.clusters;
  virtual_machines = small_netbox-HasPages.virtual_machines;
  devices = small_netbox-HasPages.devices;
  prefixes = λ q s. λ h e. cc e;
  ip_addresses = λ q s. λ h e. cc e;
  fhrp_groups = small_netbox-HasPages.fhrp_groups;
  service_templates = small_netbox-HasPages.service_templates;
  services = small_netbox-HasPages.services;
}

extract_flatcar_data-IsComplete_example :
    Ended
      (extract_flatcar_data vlan_netbox first_device)
      store
      (IsComplete vlan_netbox first_device store)
extract_flatcar_data-IsComplete_example =
    extract_flatcar_data-IsComplete vlan_netbox vlan_netbox-HasPages store first_device
      (("node-1", refl), ("S1", refl))

each_flatcar-total_example :
    (r : List Flatcar × List Error) × ((each_flatcar small_netbox
        (first_device ∷ [])
        ([], [])
        store).0
      ≡ ok r)
    × (length r.0 + length r.1 ≡ 1)
each_flatcar-total_example =
    each_flatcar-total small_netbox small_netbox-HasPages (first_device ∷ []) store
      ((("node-1", refl), ("S1", refl)), tt)

extract_talos_data-IsMadeOf_example :
    EndsIn Unit
      (IsMadeOf small_netbox small_netbox-HasPages [] "node-1")
      (extract_talos_data small_netbox first_device store).0
extract_talos_data-IsMadeOf_example =
    extract_talos_data-IsMadeOf small_netbox small_netbox-HasPages first_device "node-1" "S1" store
      {page = page_of []} refl refl refl

-- The small NetBox with one prefix.
abbrev office_netbox : Netbox
office_netbox = record small_netbox { prefixes_list = λ q s. good (page_of (office ∷ [])) }

office_netbox-HasPages : HasPages office_netbox
office_netbox-HasPages = record {
  clusters = small_netbox-HasPages.clusters;
  virtual_machines = small_netbox-HasPages.virtual_machines;
  devices = small_netbox-HasPages.devices;
  prefixes = λ q s. λ h e. cc e;
  ip_addresses = small_netbox-HasPages.ip_addresses;
  fhrp_groups = small_netbox-HasPages.fhrp_groups;
  service_templates = small_netbox-HasPages.service_templates;
  services = small_netbox-HasPages.services;
}

each_address-needs_vlan_example :
    ((Fcos.each_address office_netbox eth0 (dhcp_address ∷ []) [] store).0 ≡ panic)
    × ((Flatcar.each_address office_netbox eth0 (dhcp_address ∷ []) nothing_extracted store).0
        ≢ panic)
each_address-needs_vlan_example =
    each_address-needs_vlan office_netbox office_netbox-HasPages eth0 dhcp_address [] [] store
      {page = page_of (office ∷ [])} refl (omega arith) refl refl
