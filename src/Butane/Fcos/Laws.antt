-- ===== src/Butane/Fcos/Laws.antt =====
-- An address of which the prefix has no VLAN, on Fedora CoreOS and on Flatcar.
use machinecfg.Prelude.{◌<◌, ◌≡◌, ◌≢◌, refl, true, none, List, [], ◌∷◌, ltb, arith}
use machinecfg.Effect.{Outcome, panic, good, ok, err, ◌>>=◌}
use machinecfg.Effect.Meets.{EndsIn}
use machinecfg.Netbox.{Netbox, Param, Page, Interface, IpAddress, Prefix}
use machinecfg.Netbox.Pages.{HasPages}
use machinecfg.Butane.Config.{File}
use machinecfg.Butane.Fcos.{each_address}
use machinecfg.Butane.Flatcar
use machinecfg.Butane.Networkd.{no_device}
use machinecfg.Butane.Flatcar.{Extracted}
use machinecfg.Butane.Flatcar.Laws.{each_address-Meets}

not_panic : {A : Type 0} (Q : A → Type 0) (o : Outcome A) → EndsIn Unit Q o → o ≢ panic
not_panic Q (ok a) h e = cc e
not_panic Q (err x) h e = cc e
not_panic Q panic h e = h

abbrev pub nothing_extracted : Extracted
nothing_extracted = record { files = []; netdevs = []; device = no_device }

module _ (N : Netbox) (pages : HasPages N) where
  -- If the first prefix that NetBox lists for an address has no VLAN, Fedora CoreOS configurations
  -- panic on it, whatever came before and whatever addresses follow. If every list that counts an
  -- object shows one, Flatcar configurations do not panic on it.
  pub each_address-needs_vlan :
      (iface : Interface) (addr : IpAddress) (rest : List IpAddress) (files : List File)
      (s : N.State) {page : Page Prefix} {prefix : Prefix} {more : List Prefix}
      → N.prefixes_list (Param.contains addr.address ∷ []) s ≡ good page
      → 0 < page.count
      → page.results ≡ prefix ∷ more
      → prefix.vlan ≡ none
      → ((each_address N iface (addr ∷ rest) files s).0 ≡ panic)
        × ((Flatcar.each_address N iface (addr ∷ rest) nothing_extracted s).0 ≢ panic)
  unfolding each_address ◌>>=◌
  each_address-needs_vlan iface addr rest files s {page} listed counted results untagged =
      let some_page : ltb 0 page.count ≡ true = ground arith in
      (
        rw (listed, some_page, results, untagged) refl,
        not_panic _ _
            ((each_address-Meets N pages iface (addr ∷ rest) nothing_extracted refl).at s),
      )
