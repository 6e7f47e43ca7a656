-- ===== src/Butane/Config/Reads.antt =====
-- common.go: what the making of the two files on a device does to NetBox.
use machinecfg.Prelude.{String, Option, none, some, string_eq}
use machinecfg.Effect.{Outcome, ok, err, panic, Reply, good, bad}
use machinecfg.Effect.Moves.{Moves, Preorder, reads}
use machinecfg.Netbox.{Netbox, Device, BriefAddress, IpAddress}
use machinecfg.Butane.Config.{
  translated, create_dcim_file, get_hostname, hostname_of, name_of_address, dns_name_or,
}

module _ {S : Type 0} {P : Preorder S} where
  pub translated-Moves : (o : Outcome String) → Moves P (translated o)
  translated-Moves (ok ignition) = search reads depth 4
  translated-Moves (err e) = search reads depth 4
  translated-Moves panic = search reads depth 4

  pub create_dcim_file-Moves : (device : Device) → Moves P (create_dcim_file device)
  unfolding create_dcim_file
  create_dcim_file-Moves device = search reads depth 8

module _ (N : Netbox) {P : Preorder N.State} where
  dns_name_or-Moves :
      (fallback dns_name : Option String) → Moves P (dns_name_or N fallback dns_name)
  dns_name_or-Moves fallback none = search reads depth 4
  dns_name_or-Moves fallback (some dns_name) = search reads depth 8

  name_of_address-Moves :
      (fallback : Option String) (r : Reply IpAddress) → Moves P (name_of_address N fallback r)
  name_of_address-Moves fallback (bad e) = search reads depth 4
  name_of_address-Moves fallback (good addr) = search dns_name_or-Moves depth 4

  hostname_of-Moves :
      (fallback : Option String) (a : Option BriefAddress) → Moves P (hostname_of N fallback a)
  hostname_of-Moves fallback none = search reads depth 4
  hostname_of-Moves fallback (some a) = search (reads, name_of_address-Moves) depth 12

  pub get_hostname-Moves : (device : Device) → Moves P (get_hostname N device)
  unfolding get_hostname
  get_hostname-Moves device = hostname_of-Moves device.name _
