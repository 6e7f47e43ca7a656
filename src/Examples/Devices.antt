-- ===== src/Examples/Devices.antt =====
-- The theorems on devices, on a NetBox that lists two: one that has all that is read, and one
-- without an address.
use machinecfg.Prelude.{◌+◌, length, String, ◌≡◌, ◌≢◌, refl, false, none, some, List, [], ◌∷◌, All}
use machinecfg.Effect.{good, ok, ◌>>=◌}
use machinecfg.Netbox.{Netbox, Page, Device, IpAddress, Prefix, Interface, value}
use machinecfg.Kube.{Hardware}
use machinecfg.Common.{get_devices}
use machinecfg.Common.Filters.{DeviceFilters}
use machinecfg.Butane.Flatcar.{create_flatcars}
use machinecfg.Butane.Fcos.{create_fcoss}
use machinecfg.Talos.{create_talos_configs}
use machinecfg.Tinkerbell.Hardware.ReadOnly.{creations-change_nothing}
use machinecfg.Tinkerbell.Hardware.{create_hardwares, create_hardwares_to_prune}
use machinecfg.Tinkerbell.Hardware.Made.{IsReadable, Answers}
use machinecfg.Tinkerbell.Hardware.Picks.{Picks}
use machinecfg.Tinkerbell.Hardware.Created.{Devices, create_hardwares-Picks}
use machinecfg.Command.HardwareSync.{Summary, create_object, sync_objects, sync}
use machinecfg.Command.HardwareSync.Run.{Counts, sync-Counts}
use machinecfg.Examples.{
  small_kube, silent_netbox, first_device, page_of, page_of-IsShown, no_ignition,
}

abbrev ready_device : Device
ready_device = record first_device {
  primary_ip4 = value (record { id = 3; address = "10.0.0.7/20"; display = ""; url = "" });
  primary_ip = value (record { id = 3; address = "10.0.0.7/20"; display = ""; url = "" });
  platform = value (record { name = "x86_64"; slug = "x86_64" });
}

abbrev without_address : Device
without_address = record first_device {
  id = 43;
  name = some "node-2";
  primary_ip = value (record { id = 3; address = "10.0.0.7/20"; display = ""; url = "" });
  platform = value (record { name = "x86_64"; slug = "x86_64" });
}

abbrev devices : List Device
devices = ready_device ∷ without_address ∷ []

abbrev address : IpAddress
address = record {
  id = 3;
  address = "10.0.0.7/20";
  display = "";
  url = "";
  dns_name = none;
  status = "active";
  tags = [];
  assigned_object_id = some 7;
}

abbrev eth0 : Interface
eth0 = record {
  id = 7;
  name = "eth0";
  mac_address = none;
  primary_mac_address = "AA:BB:CC:00:11:22";
  mac_addresses = [];
  tags = [];
  tagged_vlans = [];
}

abbrev gateway_prefix : Prefix
gateway_prefix = record { id = 1; display = "10.0.0.0/20"; vlan = none; custom_fields = [] }

abbrev pub listing : Netbox
listing = record (silent_netbox Unit) {
  devices_list = λ q s. good (page_of devices);
  inventory_items_list = λ q s. good (page_of (record { id = 5; name = "/dev/sda" } ∷ []));
  interfaces_retrieve = λ id s. good eth0;
  prefixes_list = λ q s. good (page_of (gateway_prefix ∷ []));
  ip_addresses_list = λ q s. good (page_of (address ∷ []));
}

pub listing-Answers : Answers listing
listing-Answers = record {
  prefixes = λ q s. page_of-IsShown (gateway_prefix ∷ []);
  ip_addresses = λ q s. (page_of-IsShown (address ∷ []), ((7, refl), tt));
}

abbrev pub no_filters : DeviceFilters
no_filters = record {
  regions = [];
  sites = [];
  locations = [];
  racks = [];
  tenants = [];
  roles = [];
  virtualisation = false;
  clusters = [];
  status = [];
}

devices-IsReadable : All IsReadable devices
devices-IsReadable = (
  record {
    named = (("node-1", refl), ("S1", refl));
    primary_ip4 = tt;
    primary_ip = tt;
    platform = tt;
  },
  (
    record {
      named = (("node-2", refl), ("S1", refl));
      primary_ip4 = tt;
      primary_ip = tt;
      platform = tt;
    },
    tt,
  ),
)

no_variant : {s : String} → none ≢ some s
no_variant h = cc h

staged_devices :
    (get_devices listing (record no_filters { status = "staged" ∷ [] }) tt).0 ≡ ok (page_of devices)
unfolding get_devices ◌>>=◌
staged_devices = refl

create_hardwares-Picks_example :
    (hws : List Hardware) × (create_hardwares listing no_ignition no_ignition no_filters none tt
      ≡ (ok hws, tt))
    × Picks listing tt devices hws
create_hardwares-Picks_example =
    create_hardwares-Picks listing listing-Answers no_ignition no_ignition no_filters none tt
      (page_of devices) no_variant no_variant staged_devices devices-IsReadable

creations-change_nothing_example :
    ((create_flatcars listing no_filters tt).1 ≡ tt)
    × ((create_fcoss listing no_filters tt).1 ≡ tt)
    × ((create_talos_configs listing no_filters tt).1 ≡ tt)
    × ((create_hardwares listing no_ignition no_ignition no_filters (some "flatcar") tt).1 ≡ tt)
    × ((create_hardwares_to_prune listing no_filters tt).1 ≡ tt)
creations-change_nothing_example =
    creations-change_nothing listing no_ignition no_ignition no_filters (some "flatcar") tt

listed_at :
    (statuses : List String) (s : Unit {0})
    → (get_devices listing (record no_filters { status = statuses }) s).0 ≡ ok (page_of devices)
unfolding get_devices ◌>>=◌
listed_at statuses s = refl

sync-Counts_example :
    (page : Page Device) × (hws : List Hardware) × (created : Summary) × (deleted : Summary)
    × ((sync listing small_kube no_ignition no_ignition no_filters none (tt, [])).0
        ≡ ok (created, deleted))
    × Devices listing ("staged" ∷ []) no_filters tt page
    × Picks listing tt page.results hws
    × (created.success + created.failure ≡ length hws)
    × Counts listing
        ("offline" ∷ "planned" ∷ [])
        no_filters
        (sync_objects listing small_kube
          (create_object listing small_kube)
          hws
          (record { success = 0; failure = 0 })
          (tt, [])).1.0
        deleted
sync-Counts_example =
    sync-Counts listing small_kube no_ignition no_ignition listing-Answers no_filters none (tt, [])
      no_variant no_variant (page_of devices, listed_at ("staged" ∷ []) tt, devices-IsReadable)
      (λ s. (page_of devices, listed_at ("offline" ∷ "planned" ∷ []) s, devices-IsReadable))
