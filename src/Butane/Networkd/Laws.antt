-- ===== src/Butane/Networkd/Laws.antt =====
-- The files that the functions of systemd-networkd add, by their paths.
use machinecfg.Prelude.{
  String, ◌≡◌, refl, ◌∙◌, ap, sym, ◌⊎◌, inl, inr, List, [], ◌∷◌, ◌++◌, map, Exists, false,
}
use mathlib.Core.Bool.{false≢true}
use machinecfg.Text.{to_lower}
use machinecfg.Common.Laws.{has_dhcp_tag-Exists}
use mathlib.Core.List.{map-append, append_assoc, append-nil}
use machinecfg.Effect.{ok}
use machinecfg.Effect.Meets.{Meets, Meets-returns, Meets-pure, Meets-bind, Meets-if}
use machinecfg.Netbox.{Netbox, Interface, IpAddress, Prefix}
use machinecfg.Common.{has_dhcp_tag}
use machinecfg.Common.Answers.{get_tagged_addresses_from_prefix-Meets}
use machinecfg.Butane.Config.{File}
use machinecfg.Butane.Networkd.{
  NetworkdDevice, Netdev, network_path, netdev_path, append_network_file_for_iface,
  append_netdev_confs, append_network_file_for_vlan, set_values_to_network_device,
}

abbrev pub paths : List File → List String
paths files = map (λ (f : File). f.path) files

pub append_netdev_confs-paths :
    (files : List File) (vlans : List Netdev)
    → paths (append_netdev_confs files vlans)
      ≡ paths files ++ map (λ (d : Netdev). netdev_path d.name) vlans
unfolding append_netdev_confs
append_netdev_confs-paths files [] = sym (append-nil (paths files))
append_netdev_confs-paths files (vlan ∷ vlans) =
    append_netdev_confs-paths (files ++ _ ∷ []) vlans
    ∙ ap (λ ps. ps ++ map (λ (d : Netdev). netdev_path d.name) vlans) (map-append _ files (_ ∷ []))
    ∙ append_assoc (paths files) (_ ∷ []) _

pub append_network_file_for_iface-paths :
    (files : List File) (device : NetworkdDevice) (netdevs : List Netdev)
    → paths (append_network_file_for_iface files device netdevs)
      ≡ paths files ++ network_path device.name ∷ []
unfolding append_network_file_for_iface
append_network_file_for_iface-paths files device netdevs = map-append _ files (_ ∷ [])

not_tagged :
    (addr : IpAddress)
    → has_dhcp_tag addr.tags ≡ false
    → ¬ Exists (λ t. to_lower t ≡ "dhcp") addr.tags
not_tagged addr h found = false≢true (sym h ∙ (has_dhcp_tag-Exists addr.tags).1 found)

module _ (N : Netbox) where
  pub append_network_file_for_vlan-Meets :
      (files : List File) (netdev : Netdev) (addr : IpAddress) (prefix : Prefix)
      → Meets Unit
          (λ files'. paths files' ≡ paths files ++ network_path netdev.name ∷ [])
          (append_network_file_for_vlan N files netdev addr prefix)
  unfolding append_network_file_for_vlan
  append_network_file_for_vlan-Meets files netdev addr prefix =
      Meets-bind _ _ (get_tagged_addresses_from_prefix-Meets N "gateway" prefix) λ gateways _.
        Meets-bind _ _ (get_tagged_addresses_from_prefix-Meets N "dns" prefix)
          λ dns _. Meets-pure _ (map-append _ files (_ ∷ []))

  -- What an address makes of the physical device: DHCP and no address if one of its tags is "dhcp"
  -- in some mix of cases, and else this address alone.
  abbrev pub Configures : Interface → IpAddress → NetworkdDevice → Type 0
  Configures iface addr device =
      (device.name ≡ iface.name)
      × ((Exists (λ t. to_lower t ≡ "dhcp") addr.tags
            × (device.network.dhcp ≡ "yes")
            × (device.network.addresses ≡ []))
          ⊎ ((¬ Exists (λ t. to_lower t ≡ "dhcp") addr.tags)
              × (device.network.dhcp ≡ "no")
              × (device.network.addresses ≡ addr.address ∷ [])))

  pub set_values_to_network_device-Meets :
      (iface : Interface) (addr : IpAddress) (prefix : Prefix)
      → Meets ⊥ (Configures iface addr) (set_values_to_network_device N iface addr prefix)
  unfolding set_values_to_network_device
  set_values_to_network_device-Meets iface addr prefix =
      Meets-if (has_dhcp_tag addr.tags) _ _
        (λ tagged. Meets-pure _ (refl, inl ((has_dhcp_tag-Exists addr.tags).0 tagged, refl, refl)))
        (λ untagged.
          Meets-bind _ _ (get_tagged_addresses_from_prefix-Meets N "gateway" prefix) λ gateways _.
            Meets-bind _ _ (get_tagged_addresses_from_prefix-Meets N "dns" prefix)
              λ dns _. Meets-pure _ (refl, inr (not_tagged addr untagged, refl, refl)))

  -- Whatever NetBox answers, the physical device gets the name of the interface. If one of the tags
  -- of the address is "dhcp" in some mix of cases, it gets DHCP and no address, and else no DHCP and
  -- exactly the address at hand.
  pub set_values_to_network_device-Configures :
      (iface : Interface) (addr : IpAddress) (prefix : Prefix) (s : N.State)
      → (device : NetworkdDevice) × ((set_values_to_network_device N iface addr prefix s).0
          ≡ ok device)
        × Configures iface addr device
  set_values_to_network_device-Configures iface addr prefix s =
      Meets-returns _ (set_values_to_network_device-Meets iface addr prefix) s
