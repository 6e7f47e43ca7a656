-- ===== src/Tooling/SeedNetbox.antt =====
-- tooling/seed-netbox/main.go: the tenant "testing" and its devices are put into NetBox.
pub mod Client
pub mod Laws
use machinecfg.Prelude.{
  ℕ, String, ◌<>◌, Bool, Option, none, some, List, [], ◌∷◌, ◌==◌, string_eq, if◌then◌else◌,
}
use machinecfg.Effect.{Exec, Reply, pure, tell, attempt, wrap, good, bad, ◌>>=◌, ◌>>◌}
use machinecfg.Text.{itoa}
use machinecfg.Netbox.FindOrCreate.{find_or_create}
use machinecfg.Cluster.Records.{to_int64}
use machinecfg.Tooling.SeedNetbox.Client.{SeedClient, Listing, Request}

pub record NetworkSpec : Type 0 where
  pub iface_name : String
  pub mac_addr : String
  pub ip_address : String
  pub iface_type : String

pub record DeviceSpec : Type 0 where
  pub name : String
  pub status : String
  pub network : Option NetworkSpec

abbrev staged : String → String → String → String → String → DeviceSpec
staged name iface_name mac_addr ip_address iface_type = record {
  name = name;
  status = "staged";
  network = some (record {
    iface_name = iface_name;
    mac_addr = mac_addr;
    ip_address = ip_address;
    iface_type = iface_type;
  });
}

abbrev pub devices_to_seed : List DeviceSpec
devices_to_seed =
    staged "test-simple-01" "eth0" "aa:bb:cc:00:01:01" "10.10.0.1/24" "1000base-t"
    ∷ staged "test-bond-01" "bond0" "aa:bb:cc:00:02:01" "10.10.0.2/24" "lag"
    ∷ staged "test-vlan-01" "eth0" "aa:bb:cc:00:03:01" "10.10.1.1/24" "1000base-t"
    ∷ staged "test-bond-vlan-01" "bond0" "aa:bb:cc:00:04:01" "10.10.1.2/24" "lag"
    ∷ staged "test-missing-ip-01" "eth0" "aa:bb:cc:00:05:01" "" "1000base-t"
    ∷ staged "test-missing-mac-01" "eth0" "" "10.10.0.5/24" "1000base-t"
    ∷ []

abbrev pub prefixes_to_seed : List String
prefixes_to_seed = "10.10.0.0/24" ∷ "10.10.1.0/24" ∷ []

module _ (N : SeedClient) where
  -- The number of the first object listed, or of a new one.
  abbrev pub ensure : String → String → Listing → Request → Exec N.State ℕ
  ensure what made listing request = do
    found ←
        find_or_create (λ t. "list " <> what <> ": " <> t) (λ t. "create " <> made <> ": " <> t)
          (N.list listing) (N.create request)
    pure found.0

  unfoldable pub ensure_tenant : Exec N.State ℕ
  ensure_tenant =
      ensure "tenants" "tenant" (Listing.tenants ("testing" ∷ []))
        (Request.tenant "testing" "testing")

  unfoldable pub ensure_site : ℕ → Exec N.State ℕ
  ensure_site tenant_id =
      ensure "sites" "site" (Listing.sites ("testing-site" ∷ []))
        (Request.site "testing-site" "testing-site" tenant_id)

  unfoldable pub ensure_device_role : Exec N.State ℕ
  ensure_device_role =
      ensure "device roles" "device role" (Listing.device_roles ("worker" ∷ []))
        (Request.device_role "worker" "worker" "000000")

  unfoldable pub ensure_manufacturer : Exec N.State ℕ
  ensure_manufacturer =
      ensure "manufacturers" "manufacturer" (Listing.manufacturers ("test-manufacturer" ∷ []))
        (Request.manufacturer "test-manufacturer" "test-manufacturer")

  unfoldable pub ensure_device_type : ℕ → Exec N.State ℕ
  ensure_device_type manufacturer_id =
      ensure "device types" "device type" (Listing.device_types ("test-device-type" ∷ []))
        (Request.device_type manufacturer_id "test-device-type" "test-device-type")

  unfoldable pub ensure_prefix : String → Exec N.State (Unit {0})
  ensure_prefix prefix = do
    id ←
        ensure "prefixes" ("prefix " <> prefix) (Listing.prefixes (prefix ∷ []))
          (Request.prefix prefix)
    pure tt

  unfoldable pub ensure_interface : ℕ → String → String → Exec N.State ℕ
  ensure_interface device_id name iface_type =
      ensure "interfaces" ("interface " <> name <> " on device " <> itoa device_id)
        (Listing.interfaces (device_id ∷ []) (name ∷ []))
        (Request.interface device_id name iface_type)

  unfoldable pub ensure_ip_address : String → ℕ → Exec N.State ℕ
  unfolding to_int64
  ensure_ip_address address iface_id =
      ensure "ip addresses" ("ip address " <> address) (Listing.ip_addresses (address ∷ []))
        (Request.ip_address address "dcim.interface" (to_int64 iface_id))

  unfoldable pub ensure_device : DeviceSpec → ℕ → ℕ → ℕ → ℕ → Exec N.State ℕ
  ensure_device spec site_id role_id device_type_id tenant_id =
      ensure "devices" ("device " <> spec.name) (Listing.devices (spec.name ∷ []))
        (Request.device spec.name device_type_id role_id site_id spec.status tenant_id)

  unfoldable pub ensure_device_primary_ip : ℕ → ℕ → Exec N.State (Unit {0})
  ensure_device_primary_ip device_id ip_id = do
    device ←
        wrap (λ t. "set primary IP " <> itoa ip_id <> " on device " <> itoa device_id <> ": " <> t)
          (tell (N.set_primary_ip4 device_id ip_id))
    pure tt

  unfoldable pub ensure_prefixes : List String → Exec N.State (Unit {0})
  unfolding ensure_prefix
  ensure_prefixes [] = pure tt
  ensure_prefixes (prefix ∷ prefixes) = ensure_prefix prefix >> ensure_prefixes prefixes

  -- What the loop does with a device that exists.
  abbrev pub seed_network : ℕ → Option NetworkSpec → Exec N.State (Unit {0})
  seed_network device_id none = pure tt
  seed_network device_id (some network) = do
    iface_id ← ensure_interface device_id network.iface_name network.iface_type
    if network.ip_address == "" then pure tt else (do
      ip_id ← ensure_ip_address network.ip_address iface_id
      ensure_device_primary_ip device_id ip_id)

  unfoldable pub seed_devices : List DeviceSpec → ℕ → ℕ → ℕ → ℕ → Exec N.State (Unit {0})
  unfolding ensure_device ensure_interface ensure_ip_address ensure_device_primary_ip
  seed_devices [] site_id role_id device_type_id tenant_id = pure tt
  seed_devices (spec ∷ specs) site_id role_id device_type_id tenant_id = do
    device_id ← ensure_device spec site_id role_id device_type_id tenant_id
    (seed_network device_id spec.network
        >> seed_devices specs site_id role_id device_type_id tenant_id)

  -- What `main` does with a client: it ends at the first error.
  unfoldable pub seed : Exec N.State (Unit {0})
  unfolding ensure_tenant ensure_site ensure_device_role ensure_manufacturer ensure_device_type
      ensure_prefixes seed_devices
  seed = do
    tenant_id ← ensure_tenant
    site_id ← ensure_site tenant_id
    role_id ← ensure_device_role
    manufacturer_id ← ensure_manufacturer
    device_type_id ← ensure_device_type manufacturer_id
    (ensure_prefixes prefixes_to_seed
        >> seed_devices devices_to_seed site_id role_id device_type_id tenant_id)

  abbrev exit_status : Reply (Unit {0}) → ℕ
  exit_status (good done) = 0
  exit_status (bad e) = 1

  -- `main` with the variables NETBOX_ENDPOINT and NETBOX_TOKEN: the exit status.
  unfoldable pub main : String → String → Exec N.State ℕ
  main endpoint token =
      if endpoint == ""
      then pure 1
      else if token == ""
      then pure 1
      else (do r ← attempt seed; pure (exit_status r))
