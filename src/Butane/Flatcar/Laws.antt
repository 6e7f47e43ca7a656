-- ===== src/Butane/Flatcar/Laws.antt =====
-- The files of a Flatcar configuration.
use machinecfg.Prelude.{
  suc, ◌+◌, String, ◌≡◌, refl, ◌∙◌, ap, sym, Option, none, some, List, [], ◌∷◌, ◌++◌, map, length,
  length-append, All, arith, ltb,
}
use mathlib.Core.List.{map-append, append_assoc}
use machinecfg.Effect.{Reply, good, bad, Error, ok}
use machinecfg.Effect.Meets.{
  Meets, Meets-pure, Meets-if, Meets-bind, Meets-attempt, Meets-ask, Meets-weaken, Meets-returns,
  ReplyIn, ask-Meets, deref-Meets, never_fails,
}
use machinecfg.Netbox.{Netbox, IsNamed, Page, Device, Interface, IpAddress, Prefix, Vlan}
use machinecfg.Netbox.Pages.{IsShown, HasPages, first-Meets}
use machinecfg.Common.{is_vlan_id_in_vlan_list}
use machinecfg.Butane.Config.{Config}
use machinecfg.Butane.Config.Answers.{create_dcim_file-Meets, get_hostname-Meets}
use machinecfg.Butane.Networkd.{Netdev, network_path, netdev_path, append_netdev_confs}
use machinecfg.Butane.Networkd.Laws.{
  paths, append_netdev_confs-paths, append_network_file_for_iface-paths,
  append_network_file_for_vlan-Meets, set_values_to_network_device-Meets,
}
use machinecfg.Butane.Flatcar.{
  Extracted, Flatcar, on_device, on_vlan, at_vlan, at_prefixes, each_address, each_interface,
  network_files, extract_flatcar_data, add_flatcar, each_flatcar,
}

abbrev pub network_paths : List Netdev → List String
network_paths netdevs = map (λ (d : Netdev). network_path d.name) netdevs

abbrev pub netdev_paths : List Netdev → List String
netdev_paths netdevs = map (λ (d : Netdev). netdev_path d.name) netdevs

-- So far, each VLAN has its network file.
abbrev pub IsPaired : Extracted → Type 0
IsPaired x = paths x.files ≡ network_paths x.netdevs

-- The files of a configuration: a network file for each VLAN, a netdev file for each VLAN, then the
-- network file of the physical device and the two files on the device itself.
abbrev pub IsComplete : Config → Type 0
IsComplete config =
    (netdevs : List Netdev) × (name : String) × (paths config.files
      ≡ (network_paths netdevs ++ netdev_paths netdevs)
        ++ network_path name ∷ "/etc/dcim.yaml" ∷ "/etc/hostname" ∷ [])

module _ (N : Netbox) (pages : HasPages N) where
  on_device-Meets :
      (iface : Interface) (addr : IpAddress) (x : Extracted) (prefix : Prefix)
      → IsPaired x
      → Meets Unit IsPaired (on_device N iface addr x prefix)
  on_device-Meets iface addr x prefix h =
      Meets-bind _ _ (never_fails (set_values_to_network_device-Meets N iface addr prefix))
        λ device _. Meets-pure _ h

  on_vlan-Meets :
      (addr : IpAddress) (x : Extracted) (prefix : Prefix) (vlan : Vlan)
      → IsPaired x
      → Meets Unit IsPaired (on_vlan N addr x prefix vlan)
  on_vlan-Meets addr x prefix vlan h =
      Meets-bind _ _ (append_network_file_for_vlan-Meets N x.files _ addr prefix) λ files e.
        Meets-pure _ (
          e
          ∙ ap (λ ps. ps ++ network_path vlan.name ∷ []) h
          ∙ sym (map-append _ x.netdevs (_ ∷ [])))

  at_vlan-Meets :
      (iface : Interface) (addr : IpAddress) (x : Extracted) (prefix : Prefix) (vlan : Option Vlan)
      → IsPaired x
      → Meets Unit IsPaired (at_vlan N iface addr x prefix vlan)
  at_vlan-Meets iface addr x prefix none h = on_device-Meets iface addr x prefix h
  at_vlan-Meets iface addr x prefix (some vlan) h =
      Meets-if (is_vlan_id_in_vlan_list vlan.vid iface.tagged_vlans) _ _
        (λ _. on_vlan-Meets addr x prefix vlan h) (λ _. on_device-Meets iface addr x prefix h)

  at_prefixes-Meets :
      (iface : Interface) (addr : IpAddress) (x : Extracted) (r : Reply (Page Prefix))
      → ReplyIn IsShown r
      → IsPaired x
      → Meets Unit IsPaired (at_prefixes N iface addr x r)
  at_prefixes-Meets iface addr x (bad e) shown h = Meets-pure _ h
  at_prefixes-Meets iface addr x (good prefixes) shown h =
      Meets-if (ltb 0 prefixes.count) _ _
        (λ e.
          Meets-bind _ _ (first-Meets prefixes (ground arith) shown)
            λ prefix _. at_vlan-Meets iface addr x prefix prefix.vlan h)
        (λ e. Meets-pure _ h)

  pub each_address-Meets :
      (iface : Interface) (addresses : List IpAddress) (x : Extracted)
      → IsPaired x
      → Meets Unit IsPaired (each_address N iface addresses x)
  unfolding each_address
  each_address-Meets iface [] x h = Meets-pure _ h
  each_address-Meets iface (addr ∷ addresses) x h =
      Meets-bind _ _ (Meets-attempt Unit _ (Meets-ask _ (pages.prefixes _))) λ r shown.
        Meets-bind _ _ (at_prefixes-Meets iface addr x r shown h)
          λ x' h'. each_address-Meets iface addresses x' h'

  each_interface-Meets :
      (ifaces : List Interface) (x : Extracted)
      → IsPaired x
      → Meets Unit IsPaired (each_interface N ifaces x)
  unfolding each_interface
  each_interface-Meets [] x h = Meets-pure _ h
  each_interface-Meets (iface ∷ ifaces) x h = Meets-bind _ _ (ask-Meets _) λ addresses _.
      Meets-bind _ _ (each_address-Meets iface addresses.results x h)
        λ x' h'. each_interface-Meets ifaces x' h'

  pub network_files-paths :
      (x : Extracted)
      → IsPaired x
      → paths (network_files N x)
        ≡ (network_paths x.netdevs ++ netdev_paths x.netdevs) ++ network_path x.device.name ∷ []
  network_files-paths x h =
      append_network_file_for_iface-paths (append_netdev_confs x.files x.netdevs) x.device x.netdevs
      ∙ ap (λ ps. ps ++ network_path x.device.name ∷ [])
          (append_netdev_confs-paths x.files x.netdevs ∙ ap (λ ps. ps ++ netdev_paths x.netdevs) h)

  pub extract_flatcar_data-Meets :
      (device : Device) → IsNamed device → Meets Unit IsComplete (extract_flatcar_data N device)
  unfolding extract_flatcar_data
  extract_flatcar_data-Meets device named = Meets-bind _ _ (ask-Meets _) λ interfaces _.
      Meets-bind _ _ (each_interface-Meets interfaces.results _ refl) λ x h.
        Meets-bind _ _ (create_dcim_file-Meets device named) λ dcim _.
          Meets-bind _ _ (never_fails (get_hostname-Meets N device named)) λ hostname _.
            Meets-pure _ (
              x.netdevs,
              x.device.name,
              map-append _ (network_files N x) (_ ∷ _ ∷ [])
                  ∙ ap (λ ps. ps ++ "/etc/dcim.yaml" ∷ "/etc/hostname" ∷ [])
                      (network_files-paths x h)
                  ∙ append_assoc _ (_ ∷ []) _,
            )

  add_flatcar-Meets :
      (device : Device) (r : Reply Config) (found : List Flatcar × List Error)
      → IsNamed device
      → Meets ⊥
          (λ found'. length found'.0 + length found'.1 ≡ suc (length found.0 + length found.1))
          (add_flatcar N device r found)
  add_flatcar-Meets device (bad e) (configs, errors) named =
      Meets-pure _ (omega (arith, length-append errors (e ∷ [])))
  add_flatcar-Meets device (good config) (configs, errors) ((name, named), _) = rw named (
      Meets-bind _ _ (deref-Meets name)
        λ n _. Meets-pure _ (omega (arith, length-append configs (_ ∷ []))))

  each_flatcar-Meets :
      (devices : List Device) (found : List Flatcar × List Error)
      → All IsNamed devices
      → Meets ⊥
          (λ r. length r.0 + length r.1 ≡ (length found.0 + length found.1) + length devices)
          (each_flatcar N devices found)
  unfolding each_flatcar
  each_flatcar-Meets [] found h = Meets-pure _ (omega arith)
  each_flatcar-Meets (device ∷ devices) found (h, k) =
      Meets-bind _ _ (Meets-attempt ⊥ _ (extract_flatcar_data-Meets device h)) λ r _.
        Meets-bind _ _ (add_flatcar-Meets device r found h) λ found' e.
          Meets-weaken _ (λ a e'. omega (arith, e, e')) (each_flatcar-Meets devices found' k)

  -- A device that fails does not keep the loop of `CreateFlatcars` from the others, and is not
  -- forgotten: if every list that counts an object shows one, for devices with a name and a serial
  -- number the loop returns as many configurations and errors, together, as there are devices.
  pub each_flatcar-total :
      (devices : List Device) (s : N.State)
      → All IsNamed devices
      → (r : List Flatcar × List Error) × ((each_flatcar N devices ([], []) s).0 ≡ ok r)
        × (length r.0 + length r.1 ≡ length devices)
  each_flatcar-total devices s h =
      Meets-returns _
        (Meets-weaken _ (λ a e. omega (arith, e)) (each_flatcar-Meets devices ([], []) h)) s
