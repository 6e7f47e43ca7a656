-- ===== src/Butane/Flatcar/Files.antt =====
-- flatcar.go: the loops over the interfaces and the addresses of a device, and the files of its
-- configuration.
use machinecfg.Prelude.{
  subst, ◌<◌, ◌≡◌, refl, ◌∙◌, ap, sym, inl, inr, Option, none, some, List, [], ◌∷◌, ◌++◌, arith,
  ltb,
}
use mathlib.Core.Bool.{false≢true}
use mathlib.Core.List.{map-append, append_assoc}
use machinecfg.Effect.{Reply, good, bad}
use machinecfg.Effect.Meets.{ReplyIn, never_fails}
use machinecfg.Effect.Reads.{
  Ended, Ended-pure, Ended-ask, Ended-asked, Ended-first, Ended-if, Ended-bind, read-cases,
}
use machinecfg.Netbox.{Netbox, IsNamed, Page, Param, Device, Interface, IpAddress, Prefix, Vlan}
use machinecfg.Netbox.Pages.{IsShown, HasPages}
use machinecfg.Common.{is_vlan_id_in_vlan_list}
use machinecfg.Common.Laws.{is_vlan_id_in_vlan_list-Exists}
use machinecfg.Butane.Config.{create_dcim_file, get_hostname}
use machinecfg.Butane.Config.Answers.{create_dcim_file-Meets, get_hostname-Meets}
use machinecfg.Butane.Config.Reads.{create_dcim_file-Moves, get_hostname-Moves}
use machinecfg.Butane.Networkd.{
  network_path, set_values_to_network_device, append_network_file_for_vlan,
}
use machinecfg.Butane.Networkd.Laws.{
  append_network_file_for_vlan-Meets, set_values_to_network_device-Meets,
}
use machinecfg.Butane.Flatcar.{
  Extracted, on_device, on_vlan, at_vlan, at_prefixes, each_address, each_interface, network_files,
  extract_flatcar_data,
}
use machinecfg.Butane.Flatcar.Laws.{IsPaired, network_files-paths}
use machinecfg.Butane.Flatcar.Found.{
  Found, prefixes_of, IsFirst, IsTagged, AtAddress, without_prefix, with_vlan, physical,
  AtAddresses, no_address, next_address, AtInterfaces, no_interface, next_interface, IsComplete,
}
use machinecfg.Butane.Flatcar.Reads.{
  set_values_to_network_device-Moves, append_network_file_for_vlan-Moves,
}

abbrev found_in : Extracted → Found
found_in x = (x.netdevs, x.device.name)

module _ (N : Netbox) (pages : HasPages N) (s : N.State) where
  abbrev Goes : (Found → Found → Type 0) → Extracted → Extracted → Type 0
  Goes R x x' = IsPaired x' × R (found_in x) (found_in x')

  on_device-Ended :
      (iface : Interface) (addr : IpAddress) (x : Extracted) (prefix : Prefix)
      → IsPaired x
      → IsFirst N s addr prefix
      → ((vlan : Vlan) → prefix.vlan ≡ some vlan → ¬ IsTagged iface vlan)
      → Ended (on_device N iface addr x prefix) s (Goes (AtAddress N s iface addr) x)
  on_device-Ended iface addr x prefix paired is_first untagged =
      Ended-bind s _ _
        (read-cases (set_values_to_network_device N iface addr prefix) s
          (set_values_to_network_device-Moves N iface addr prefix)
          (never_fails (set_values_to_network_device-Meets N iface addr prefix)))
        λ device (named, _). Ended-pure s _ (
          paired,
          subst (λ name. AtAddress N s iface addr (found_in x) (x.netdevs, name)) (sym named)
              (physical is_first untagged),
        )

  on_vlan-Ended :
      (iface : Interface) (addr : IpAddress) (x : Extracted) (prefix : Prefix) (vlan : Vlan)
      → IsPaired x
      → IsFirst N s addr prefix
      → prefix.vlan ≡ some vlan
      → IsTagged iface vlan
      → Ended (on_vlan N addr x prefix vlan) s (Goes (AtAddress N s iface addr) x)
  on_vlan-Ended iface addr x prefix vlan paired is_first has_vlan tagged =
      Ended-bind s _ _
        (read-cases (append_network_file_for_vlan N x.files _ addr prefix) s
          (append_network_file_for_vlan-Moves N x.files _ addr prefix)
          (append_network_file_for_vlan-Meets N x.files _ addr prefix))
        λ files e. Ended-pure s _ (
          e
              ∙ ap (λ ps. ps ++ network_path vlan.name ∷ []) paired
              ∙ sym (map-append _ x.netdevs (_ ∷ [])),
          with_vlan is_first has_vlan tagged,
        )

  no_vlan : {vlan : Vlan} {o : Option Vlan} → o ≡ none → o ≡ some vlan → ⊥
  no_vlan h e = absurd (cc (h, e))

  same_vlan : {a b : Vlan} {o : Option Vlan} → o ≡ some a → o ≡ some b → a ≡ b
  same_vlan h e = cc (h, e)

  at_vlan-Ended :
      (iface : Interface) (addr : IpAddress) (x : Extracted) (prefix : Prefix) (vlan : Option Vlan)
      → IsPaired x
      → IsFirst N s addr prefix
      → prefix.vlan ≡ vlan
      → Ended (at_vlan N iface addr x prefix vlan) s (Goes (AtAddress N s iface addr) x)
  at_vlan-Ended iface addr x prefix none paired is_first has =
      on_device-Ended iface addr x prefix paired is_first (λ vlan e. absurd (no_vlan has e))
  at_vlan-Ended iface addr x prefix (some vlan) paired is_first has =
      let (to, from) = is_vlan_id_in_vlan_list-Exists vlan.vid iface.tagged_vlans in
      Ended-if s (is_vlan_id_in_vlan_list vlan.vid iface.tagged_vlans) _ _
        (λ tagged. on_vlan-Ended iface addr x prefix vlan paired is_first has (to tagged))
        (λ untagged. on_device-Ended iface addr x prefix paired is_first λ other e t.
          false≢true (sym untagged ∙ from (subst (IsTagged iface) (same_vlan e has) t)))

  at_prefixes-Ended :
      (iface : Interface) (addr : IpAddress) (x : Extracted) (r : Reply (Page Prefix))
      → prefixes_of N addr s ≡ r
      → ReplyIn IsShown r
      → IsPaired x
      → Ended (at_prefixes N iface addr x r) s (Goes (AtAddress N s iface addr) x)
  at_prefixes-Ended iface addr x (bad e) answer shown paired =
      Ended-pure s _ (paired, without_prefix (inl (e, answer)))
  at_prefixes-Ended iface addr x (good prefixes) answer shown paired =
      Ended-if s (ltb 0 prefixes.count) _ _
        (λ some_counted.
          let counted : 0 < prefixes.count = ground arith in
          Ended-bind s _ _ (Ended-first s prefixes.results (shown counted)) λ prefix first_one.
            at_vlan-Ended iface addr x prefix prefix.vlan paired
              (prefixes, answer, counted, first_one) refl)
        (λ none_counted.
          Ended-pure s _ (paired, without_prefix (inr (prefixes, answer, none_counted))))

  each_address-Ended :
      (iface : Interface) (addresses : List IpAddress) (x : Extracted)
      → IsPaired x
      → Ended (each_address N iface addresses x) s (Goes (AtAddresses N s iface addresses) x)
  unfolding each_address
  each_address-Ended iface [] x paired = Ended-pure s _ (paired, no_address)
  each_address-Ended iface (addr ∷ addresses) x paired =
      Ended-bind s _ _ (Ended-asked s _) λ r answer.
        Ended-bind s _ _
          (at_prefixes-Ended iface addr x r answer
            (subst (ReplyIn IsShown) answer (pages.prefixes _ s)) paired)
          λ x' (paired', here). after x' here (each_address-Ended iface addresses x' paired')
    where
      after :
          (x' : Extracted)
          → AtAddress N s iface addr (found_in x) (found_in x')
          → Ended (each_address N iface addresses x') s (Goes (AtAddresses N s iface addresses) x')
          → Ended
              (each_address N iface addresses x')
              s
              (Goes (AtAddresses N s iface (addr ∷ addresses)) x)
      after x' here h = elim h [
        | inl (x'', gave, (paired'', there)) ↦ inl (x'', gave, (paired'', next_address here there))
        | inr failed ↦ inr failed
      ]

  each_interface-Ended :
      (ifaces : List Interface) (x : Extracted)
      → IsPaired x
      → Ended (each_interface N ifaces x) s (Goes (AtInterfaces N s ifaces) x)
  unfolding each_interface
  each_interface-Ended [] x paired = Ended-pure s _ (paired, no_interface)
  each_interface-Ended (iface ∷ ifaces) x paired = Ended-bind s _ _ (Ended-ask s _) λ page listed.
      Ended-bind s _ _ (each_address-Ended iface page.results x paired)
        λ x' (paired', here). after x' page listed here (each_interface-Ended ifaces x' paired')
    where
      after :
          (x' : Extracted) (page : Page IpAddress)
          → N.ip_addresses_list (Param.interface_id (iface.id ∷ []) ∷ []) s ≡ good page
          → AtAddresses N s iface page.results (found_in x) (found_in x')
          → Ended (each_interface N ifaces x') s (Goes (AtInterfaces N s ifaces) x')
          → Ended (each_interface N ifaces x') s (Goes (AtInterfaces N s (iface ∷ ifaces)) x)
      after x' page listed here h = elim h [
        | inl (x'', gave, (paired'', there)) ↦
            inl (x'', gave, (paired'', next_interface listed here there))
        | inr failed ↦ inr failed
      ]

  -- If every list that counts an object shows one, the configuration of a device with a name and a
  -- serial number is either an error or made, without a panic, and nothing is written. The files
  -- that are made are, in this order: a network file for each VLAN that is found, a netdev file of
  -- the same name for each of them, the network file of the physical device, /etc/dcim.yaml and
  -- /etc/hostname. The VLANs are found by going through the interfaces that NetBox lists for the
  -- device and the addresses that it lists for each: an address adds the VLAN of its first prefix
  -- if that VLAN is tagged on the interface; if the prefix has no such VLAN, the physical device
  -- gets the name of the interface, so that the last such interface gives the name.
  pub extract_flatcar_data-IsComplete :
      (device : Device)
      → IsNamed device
      → Ended (extract_flatcar_data N device) s (IsComplete N device s)
  unfolding extract_flatcar_data
  extract_flatcar_data-IsComplete device named = Ended-bind s _ _ (Ended-ask s _) λ page listed.
      Ended-bind s _ _ (each_interface-Ended page.results _ refl) λ x (paired, found).
        Ended-bind s _ _
          (read-cases (create_dcim_file device) s (create_dcim_file-Moves device)
            (create_dcim_file-Meets device named))
          λ dcim _.
            Ended-bind s _ _
              (read-cases (get_hostname N device) s (get_hostname-Moves N device)
                (never_fails (get_hostname-Meets N device named)))
              λ hostname _. Ended-pure s _ (
                page,
                x.netdevs,
                x.device.name,
                listed,
                found,
                map-append _ (network_files N x) (_ ∷ _ ∷ [])
                    ∙ ap (λ ps. ps ++ "/etc/dcim.yaml" ∷ "/etc/hostname" ∷ [])
                        (network_files-paths N pages x paired)
                    ∙ append_assoc _ (_ ∷ []) _,
              )
