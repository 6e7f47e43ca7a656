-- ===== src/Butane/Config.antt =====
-- common.go, and what the two distributions share: a configuration with the files that it writes.
-- `translate` stands for the translation of a configuration by Butane and its printing as JSON.
pub mod Answers
pub mod Reads
use machinecfg.Prelude.{
  ℕ, String, ◌<>◌, Bool, true, false, not, ◌&&◌, Option, none, some, List, Dict, lookup, ◌==◌,
  string_eq, if◌then◌else◌,
}
use machinecfg.Effect.{
  Exec, Reply, good, bad, Outcome, ok, err, panic, pure, crash, ask, attempt, deref, ◌>>=◌,
}
use machinecfg.Netbox.{
  Netbox, Any, nil, text, opaque, Brief, BriefAddress, Device, IpAddress, get_name, get_nullable,
}

pub record File : Type 0 where
  pub path : String
  pub contents : String

pub record Config : Type 0 where
  pub version : String
  pub variant : String
  pub files : List File

-- A configuration as text. What cannot be translated is no text.
abbrev pub translated : {S : Type 0} → Outcome String → Exec S String
translated (ok ignition) = pure ignition
translated (err e) = pure ""
translated panic = crash

-- `prefix.CustomFields["Domains"]`
abbrev pub domains_of : Dict Any → Any
domains_of fields = elim (lookup "Domains" fields) [ none ↦ nil | some a ↦ a ]

-- `GetName` of the location and of the rack is the empty text for a nil pointer.
unfoldable pub create_dcim_file : {S : Type 0} → Device → Exec S String
create_dcim_file device = do
  serial ← deref device.serial
  pure (
      "---\ngenerated-by: machinecfg\nserial: "
      <> serial
      <> "\nmodel: "
      <> device.model
      <> "\nrole: "
      <> device.role
      <> "\nsite: "
      <> device.site
      <> "\nlocation: "
      <> get_name (get_nullable device.location)
      <> "\nracks: "
      <> get_name (get_nullable device.rack)
      <> "\ntenant: "
      <> get_name (get_nullable device.tenant)
      <> "\nstatus: "
      <> device.status_label)

-- `PrimaryIp4`, or else `PrimaryIp`, if it is no nil pointer.
abbrev pub primary_address : Option BriefAddress → Option BriefAddress → Option BriefAddress
primary_address (some a) b = some a
primary_address none b = b

module _ (N : Netbox) where
  abbrev dns_name_or : Option String → Option String → Exec N.State String
  dns_name_or fallback none = deref fallback
  dns_name_or fallback (some dns_name) = if dns_name == "" then deref fallback else pure dns_name

  abbrev name_of_address : Option String → Reply IpAddress → Exec N.State String
  name_of_address fallback (bad e) = deref fallback
  name_of_address fallback (good addr) = dns_name_or fallback addr.dns_name

  abbrev hostname_of : Option String → Option BriefAddress → Exec N.State String
  hostname_of fallback none = deref fallback
  hostname_of fallback (some a) = do
    addr ← attempt (ask (N.ip_addresses_retrieve a.id))
    name_of_address fallback addr

  -- The DNS name of the primary address, or else the name of the device.
  unfoldable pub get_hostname : Device → Exec N.State String
  get_hostname device =
      hostname_of device.name
        (primary_address (get_nullable device.primary_ip4) (get_nullable device.primary_ip))
