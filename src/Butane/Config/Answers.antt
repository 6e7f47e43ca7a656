-- ===== src/Butane/Config/Answers.antt =====
-- common.go: how the making of the two files on a device ends.
use machinecfg.Prelude.{String, Option, none, some, ◌==◌, string_eq}
use machinecfg.Effect.{Reply, good, bad, deref}
use machinecfg.Effect.Meets.{
  Meets, Meets-pure, Meets-if, Meets-bind, Meets-attempt, Meets-weaken, Anything, ask-Meets,
  deref-Meets,
}
use machinecfg.Netbox.{Netbox, IsNamed, Device, BriefAddress, IpAddress}
use machinecfg.Butane.Config.{
  create_dcim_file, get_hostname, hostname_of, name_of_address, dns_name_or,
}

pub create_dcim_file-Meets :
    {S : Type 0} (device : Device)
    → IsNamed device
    → Meets {S = S} Unit Anything (create_dcim_file device)
unfolding create_dcim_file
create_dcim_file-Meets device (_, (serial, numbered)) =
    rw numbered (Meets-bind _ _ (deref-Meets serial) λ s _. Meets-pure _ tt)

module _ (N : Netbox) (name : String) where
  fallback-Meets : Meets {S = N.State} ⊥ Anything (deref (some name))
  fallback-Meets = Meets-weaken _ (λ a _. tt) (deref-Meets name)

  dns_name_or-Meets :
      (dns_name : Option String) → Meets ⊥ Anything (dns_name_or N (some name) dns_name)
  dns_name_or-Meets none = fallback-Meets
  dns_name_or-Meets (some dns_name) =
      Meets-if (dns_name == "") _ _ (λ _. fallback-Meets) (λ _. Meets-pure _ tt)

  name_of_address-Meets : (r : Reply IpAddress) → Meets ⊥ Anything (name_of_address N (some name) r)
  name_of_address-Meets (bad e) = fallback-Meets
  name_of_address-Meets (good addr) = dns_name_or-Meets addr.dns_name

  hostname_of-Meets : (a : Option BriefAddress) → Meets ⊥ Anything (hostname_of N (some name) a)
  hostname_of-Meets none = fallback-Meets
  hostname_of-Meets (some a) =
      Meets-bind _ _ (Meets-attempt ⊥ _ (ask-Meets _)) λ r _. name_of_address-Meets r

module _ (N : Netbox) where
  pub get_hostname-Meets :
      (device : Device) → IsNamed device → Meets ⊥ Anything (get_hostname N device)
  unfolding get_hostname
  get_hostname-Meets device ((name, named), _) = rw named (hostname_of-Meets N name _)
