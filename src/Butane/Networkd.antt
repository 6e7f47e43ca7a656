-- ===== src/Butane/Networkd.antt =====
-- flatcar.go: the files of systemd-networkd.
pub mod Laws
use machinecfg.Prelude.{
  ℕ, ◌+◌, String, ◌<>◌, Bool, true, false, not, ◌&&◌, Option, none, some, List, [], ◌∷◌, ◌++◌, map,
  ltb, length, Dict, ◌==◌, string_eq, if◌then◌else◌,
}
use machinecfg.Effect.{Exec, pure, ◌>>=◌}
use machinecfg.Text.{before, itoa, join}
use machinecfg.Netbox.{Netbox, Any, nil, text, opaque, Interface, IpAddress, Prefix}
use machinecfg.Common.{has_dhcp_tag, get_tagged_addresses_from_prefix, from_ip_addresses_to_strings}
use machinecfg.Butane.Config.{File, domains_of}

pub record NetworkSection : Type 0 where
  pub addresses : List String
  pub gateway : String
  pub dns : List String
  pub domains : List String
  pub dhcp : String
  pub dns_default_route : String

pub record NetworkdDevice : Type 0 where
  pub name : String
  pub mac_address : String
  pub network : NetworkSection

pub record Netdev : Type 0 where
  pub name : String
  pub kind : String
  pub id : ℕ

abbrev pub no_network : NetworkSection
no_network = record {
  addresses = [];
  gateway = "";
  dns = [];
  domains = [];
  dhcp = "";
  dns_default_route = "";
}

-- The zero value of the struct.
abbrev pub no_device : NetworkdDevice
no_device = record { name = ""; mac_address = ""; network = no_network }

-- The loop over the gateways sets the field each time: the last one stays.
abbrev last_address : String → List IpAddress → String
last_address found [] = found
last_address found (a ∷ addresses) = last_address a.address addresses

-- `fmt.Sprint` of the domains, if there are any.
abbrev printed_domains : Any → List String
printed_domains nil = []
printed_domains (text s) = s ∷ []
printed_domains (opaque sprint verb) = sprint ∷ []

abbrev is_empty : {A : Type 0} → List A → Bool
is_empty [] = true
is_empty (x ∷ xs) = false

abbrev mac_or_empty : Option String → String
mac_or_empty none = ""
mac_or_empty (some mac) = mac

abbrev static_network : IpAddress → Prefix → List IpAddress → List IpAddress → NetworkSection
static_network addr prefix gateways dns = record {
  addresses = addr.address ∷ [];
  gateway = last_address "" gateways;
  dns = from_ip_addresses_to_strings dns;
  domains = if is_empty dns then [] else printed_domains (domains_of prefix.custom_fields);
  dhcp = "no";
  dns_default_route = if is_empty dns then "" else "no";
}

abbrev when_text : Bool → String → String
when_text true s = s
when_text false s = ""

-- The lines of a loop, one after the other.
abbrev pub lines : {A : Type 0} → (A → String) → List A → String
lines f [] = ""
lines f (x ∷ xs) = f x <> lines f xs

abbrev vlan_line : Netdev → String
vlan_line d = when_text (d.kind == "vlan") ("VLAN=" <> d.name <> "\n")

abbrev domain_lines : List String → String
domain_lines [] = "\nDNSDefaultRoute=yes\n"
domain_lines (d ∷ ds) = "\nDomains=" <> join " " (d ∷ ds) <> "\nDNSDefaultRoute=no\n"

abbrev network_lines : NetworkSection → String
network_lines n =
    if n.dhcp == "yes"
    then "DHCP=yes\n"
    else "\nDHCP=no\n"
      <> lines (λ a. "\nAddress=" <> a <> "\n") n.addresses
      <> when_text (not (n.gateway == "")) ("Gateway=" <> n.gateway <> "\n")
      <> lines (λ a. "DNS=" <> a <> "\n") n.dns
      <> domain_lines n.domains

abbrev pub network_path : String → String
network_path name = "/etc/systemd/network/01-" <> name <> ".network"

abbrev pub netdev_path : String → String
netdev_path name = "/etc/systemd/network/00-" <> name <> ".netdev"

-- `appendSystemdNetworkFileForIface`
unfoldable pub append_network_file_for_iface : List File → NetworkdDevice → List Netdev → List File
append_network_file_for_iface files device netdevs =
    files
    ++ record {
      path = network_path device.name;
      contents =
          "[Match]\nName="
          <> device.name
          <> "\n"
          <> when_text (not (device.mac_address == ""))
              ("MACAddress=" <> device.mac_address <> "\n")
          <> "\n[Network]\nLLDP=yes\nEmitLLDP=yes\n"
          <> network_lines device.network
          <> lines vlan_line netdevs;
    }
      ∷ []

-- `appendSystemdNetdevConfs`
unfoldable pub append_netdev_confs : List File → List Netdev → List File
append_netdev_confs files [] = files
append_netdev_confs files (vlan ∷ vlans) =
    append_netdev_confs
      (files
        ++ record {
          path = netdev_path vlan.name;
          contents =
              "[NetDev]\nName="
              <> vlan.name
              <> "\nKind="
              <> vlan.kind
              <> "\n[VLAN]\nId="
              <> itoa vlan.id
              <> "\n";
        }
          ∷ [])
      vlans

-- `%s` of the domains.
abbrev vlan_domain_lines : Any → String
vlan_domain_lines nil = "DNSDefaultRoute=yes\n"
vlan_domain_lines (text s) = "\nDomains=" <> s <> "\nDNSDefaultRoute=no\n"
vlan_domain_lines (opaque sprint verb) = "\nDomains=" <> verb <> "\nDNSDefaultRoute=no\n"

module _ (N : Netbox) where
  -- `setValuesToNetworkDevice`
  unfoldable pub set_values_to_network_device :
      Interface → IpAddress → Prefix → Exec N.State NetworkdDevice
  unfolding has_dhcp_tag
  set_values_to_network_device iface addr prefix =
      let device = record no_device {
        name = iface.name;
        mac_address = mac_or_empty iface.mac_address;
      } in
      if has_dhcp_tag addr.tags
      then pure (record device { network = record no_network { dhcp = "yes" } })
      else (do
        gateways ← get_tagged_addresses_from_prefix N "gateway" prefix
        dns ← get_tagged_addresses_from_prefix N "dns" prefix
        pure (record device { network = static_network addr prefix gateways dns }))

  -- `appendSystemdNetworkFileForVlan`
  unfoldable pub append_network_file_for_vlan :
      List File → Netdev → IpAddress → Prefix → Exec N.State (List File)
  append_network_file_for_vlan files netdev addr prefix = do
    gateways ← get_tagged_addresses_from_prefix N "gateway" prefix
    dns ← get_tagged_addresses_from_prefix N "dns" prefix
    pure (
        files
        ++ record {
          path = network_path netdev.name;
          contents =
              "[Match]\nName="
              <> netdev.name
              <> "\n[Network]\nDHCP=no\nAddress="
              <> addr.address
              <> "\n"
              <> lines (λ (a : IpAddress). "\nGateway=" <> before b'/' a.address <> "\n") gateways
              <> lines (λ (a : IpAddress). "\nDNS=" <> before b'/' a.address <> "\n") dns
              <> when_text (not (is_empty dns))
                  (vlan_domain_lines (domains_of prefix.custom_fields));
        }
          ∷ [])
