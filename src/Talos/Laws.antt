-- ===== src/Talos/Laws.antt =====
-- The interfaces and the VLANs of a Talos configuration.
use machinecfg.Prelude.{
  ℕ, suc, ◌+◌, ◌<◌, ◌^◌, String, ◌≡◌, refl, ap, some, List, [], ◌∷◌, map, length, length-append,
  All, All-append, arith, ltb, Bool-cases, inl, inr, not,
}
use machinecfg.Effect.{Reply, good, bad, Error, ok, ◌>>=◌}
use machinecfg.Effect.Meets.{
  Meets, Meets-pure, Meets-if, Meets-bind, Meets-attempt, Meets-ask, Meets-weaken, Meets-returns,
  Anything, ReplyIn, EndsIn, ask-Meets, deref-Meets,
}
use machinecfg.Netbox.{Netbox, IsNamed, Page, Param, Device, Interface, IpAddress, Prefix}
use machinecfg.Netbox.Pages.{IsShown, HasPages, first-Meets}
use machinecfg.Common.{has_dhcp_tag, is_vlan_id_in_vlan_list}
use machinecfg.Talos.{
  TalosVlan, TalosDevice, MachineConfig, Talos, place_address, vlan_id_of, at_prefixes,
  each_address, each_interface, extract_talos_data, data_of_interfaces, add_talos, each_talos,
}

-- A VLAN that fits its field.
abbrev pub IsUint16 : TalosVlan → Type 0
IsUint16 v = v.vlan_id < 2 ^ 16

abbrev AreUint16 : String × List TalosVlan → Type 0
AreUint16 found = All IsUint16 found.1

place_address-AreUint16 :
    (iface : Interface) (addr : IpAddress) (prefix : Prefix) (found : String × List TalosVlan)
    → AreUint16 found
    → AreUint16 (place_address iface addr prefix found)
unfolding place_address
place_address-AreUint16 iface addr prefix (cidr, vlans) h =
    elim (Bool-cases (is_vlan_id_in_vlan_list (vlan_id_of prefix.vlan) iface.tagged_vlans)) [
      | inl tagged ↦ rw tagged (All-append IsUint16 vlans (_ ∷ []) h (omega arith, tt))
      | inr untagged ↦ rw untagged h
    ]

module _ (N : Netbox) (pages : HasPages N) where
  at_prefixes-Meets :
      (iface : Interface) (addr : IpAddress) (found : String × List TalosVlan)
      (r : Reply (Page Prefix))
      → ReplyIn IsShown r
      → AreUint16 found
      → Meets Unit AreUint16 (at_prefixes N iface addr found r)
  at_prefixes-Meets iface addr found (bad e) shown h = Meets-pure _ h
  at_prefixes-Meets iface addr found (good prefixes) shown h =
      Meets-if (ltb 0 prefixes.count) _ _
        (λ e.
          Meets-bind _ _ (first-Meets prefixes (ground arith) shown)
            λ prefix _. Meets-pure _ (place_address-AreUint16 iface addr prefix found h))
        (λ e. Meets-pure _ h)

  each_address-Meets :
      (iface : Interface) (addresses : List IpAddress) (found : String × List TalosVlan)
      → AreUint16 found
      → Meets Unit AreUint16 (each_address N iface addresses found)
  unfolding each_address
  each_address-Meets iface [] found h = Meets-pure _ h
  each_address-Meets iface (addr ∷ addresses) found h =
      Meets-bind _ _ (Meets-attempt Unit _ (Meets-ask _ (pages.prefixes _))) λ r shown.
        Meets-bind _ _ (at_prefixes-Meets iface addr found r shown h)
          λ found' h'. each_address-Meets iface addresses found' h'

  -- The devices of a configuration, against the interfaces that they are made of.
  abbrev pub AreDevices : List Interface → List TalosDevice → Type 0
  AreDevices ifaces devices =
      (map (λ (d : TalosDevice). d.interface) devices ≡ map (λ (i : Interface). i.name) ifaces)
      × All (λ d. All IsUint16 d.vlans) devices

  each_interface-Meets :
      (ifaces : List Interface) → Meets Unit (AreDevices ifaces) (each_interface N ifaces)
  unfolding each_interface
  each_interface-Meets [] = Meets-pure _ (refl, tt)
  each_interface-Meets (iface ∷ ifaces) = Meets-bind _ _ (ask-Meets _) λ addresses _.
      Meets-bind _ _
        (Meets-if (not (has_dhcp_tag iface.tags)) _ _
          (λ _. each_address-Meets iface addresses.results ("", []) tt) (λ _. Meets-pure _ tt))
        λ found h.
          Meets-bind _ _ (each_interface-Meets ifaces)
            λ rest k. Meets-pure _ (ap (λ names. iface.name ∷ names) k.0, (h, k.1))

  -- What a configuration has that is made of a device and of a page of its interfaces.
  abbrev pub IsMadeOf : List Interface → String → MachineConfig → Type 0
  IsMadeOf ifaces name config = (config.hostname ≡ name) × AreDevices ifaces config.interfaces

  rest_of_data-Meets :
      (device : Device) (ifaces : List Interface) (name serial : String)
      → device.name ≡ some name
      → device.serial ≡ some serial
      → Meets Unit (IsMadeOf ifaces name) (data_of_interfaces N device ifaces)
  rest_of_data-Meets device ifaces name serial named numbered =
      Meets-bind _ _ (each_interface-Meets ifaces) λ devices h.
        rw (named, numbered)
          (Meets-bind _ _ (deref-Meets name)
            λ n is_name. Meets-bind _ _ (deref-Meets serial) λ m _. Meets-pure _ (is_name, h))

  extract_talos_data-Meets :
      (device : Device) → IsNamed device → Meets Unit Anything (extract_talos_data N device)
  unfolding extract_talos_data
  extract_talos_data-Meets device ((name, named), (serial, numbered)) =
      Meets-bind _ _ (ask-Meets _) λ interfaces _.
        Meets-weaken _ (λ a _. tt)
          (rest_of_data-Meets device interfaces.results name serial named numbered)

  abbrev pub total : {A : Type 0} → List A × List Error → ℕ
  total found = length found.0 + length found.1

  add_talos-total :
      (device : Device) (r : Reply MachineConfig) (found : List Talos × List Error)
      → total (add_talos N device r found) ≡ suc (total found)
  add_talos-total device (good c) (configs, errors) = omega (arith, length-append configs (_ ∷ []))
  add_talos-total device (bad e) (configs, errors) = omega (arith, length-append errors (_ ∷ []))

  each_talos-Meets :
      (devices : List Device) (found : List Talos × List Error)
      → All IsNamed devices
      → Meets ⊥ (λ r. total r ≡ total found + length devices) (each_talos N devices found)
  unfolding each_talos
  each_talos-Meets [] found h = Meets-pure _ (omega arith)
  each_talos-Meets (device ∷ devices) found (h, k) =
      Meets-bind _ _ (Meets-attempt ⊥ _ (extract_talos_data-Meets device h)) λ r _.
        Meets-weaken _ (λ a e. omega (arith, e, add_talos-total device r found))
          (each_talos-Meets devices (add_talos N device r found) k)

  -- A device that fails does not keep the loop of the Talos configurations from the others, and is
  -- not forgotten: if every list that counts an object shows one, for devices with a name and a
  -- serial number the loop returns as many configurations and errors, together, as there are
  -- devices.
  pub each_talos-total :
      (devices : List Device) (s : N.State)
      → All IsNamed devices
      → (r : List Talos × List Error) × ((each_talos N devices ([], []) s).0 ≡ ok r)
        × (length r.0 + length r.1 ≡ length devices)
  each_talos-total devices s h =
      Meets-returns _
        (Meets-weaken _ (λ a e. omega (arith, e)) (each_talos-Meets devices ([], []) h)) s

  -- If every list that counts an object shows one, then for a device with a name and a serial
  -- number, of which NetBox lists the interfaces, the code never panics: it fails, or makes a Talos
  -- configuration with the name of the device and with one network device for each interface, in
  -- their order, of which every VLAN number fits in 16 bits.
  pub extract_talos_data-IsMadeOf :
      (device : Device) (name serial : String) (s : N.State) {page : Page Interface}
      → device.name ≡ some name
      → device.serial ≡ some serial
      → N.interfaces_list (Param.device_id (device.id ∷ []) ∷ []) s ≡ good page
      → EndsIn Unit (IsMadeOf page.results name) (extract_talos_data N device s).0
  unfolding extract_talos_data ◌>>=◌
  extract_talos_data-IsMadeOf device name serial s {page} named numbered listed =
      rw listed ((rest_of_data-Meets device page.results name serial named numbered).at s)
