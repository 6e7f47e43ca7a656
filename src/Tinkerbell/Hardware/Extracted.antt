-- ===== src/Tinkerbell/Hardware/Extracted.antt =====
-- hardware.go: `extractHardwareData`.
use machinecfg.Prelude.{◌≡◌, refl, ◌∙◌, ap, sym, some, inl, inr}
use machinecfg.Effect.Meets.{Meets, Meets-pure, Meets-bind, Meets-raise, ask-Meets, deref-Meets}
use machinecfg.Netbox.{Netbox, Device, Brief, BriefAddress, get_nullable}
use machinecfg.Tinkerbell.Hardware.{hardware_of_device, extract_hardware_data}
use machinecfg.Tinkerbell.Hardware.Made.{
  IsReadable, Answers, IsMadeOf, HasValue-get_nullable, IsNotNull-cases, primary_mac-Meets,
  tagged_texts-Meets, system_disks-Meets, create_meta_from_device-Meets,
}

module _ (N : Netbox) (answers : Answers N) (device : Device) where
  hardware_of_device-Meets :
      (ip4 ip : BriefAddress) (platform : Brief)
      → IsReadable device
      → get_nullable device.primary_ip4 ≡ some ip4
      → get_nullable device.primary_ip ≡ some ip
      → get_nullable device.platform ≡ some platform
      → Meets Unit (IsMadeOf device) (hardware_of_device N device)
  unfolding hardware_of_device
  hardware_of_device-Meets ip4 ip platform readable e e' e'' =
      rw (e, e', e'')
        (Meets-bind _ _ (deref-Meets ip4) λ ip4' is_ip4.
          Meets-bind _ _ (primary_mac-Meets N answers ip4'.id) λ mac _.
            Meets-bind _ _ (deref-Meets ip) λ ip' _.
              Meets-bind _ _ (tagged_texts-Meets N answers "gateway" ip4'.address) λ gateways _.
                Meets-bind _ _ (tagged_texts-Meets N answers "dns" ip4'.address) λ name_servers _.
                  Meets-bind _ _ (ask-Meets _) λ netmask _.
                    Meets-bind _ _ (create_meta_from_device-Meets N answers device readable.named)
                      λ meta (named, labelled, spaced).
                        Meets-bind _ _ (system_disks-Meets N answers meta.name device.id)
                          λ disks some_disk.
                            Meets-bind _ _ (deref-Meets platform) λ platform' is_platform.
                              Meets-pure _ (record {
                                name = named;
                                labels = labelled;
                                namespace = spaced;
                                annotations = refl;
                                disks = some_disk;
                                boots = (
                                  _,
                                  platform',
                                  ip4',
                                  refl,
                                  refl,
                                  refl,
                                  e'' ∙ ap some (sym is_platform),
                                  refl,
                                  e ∙ ap some (sym is_ip4),
                                  refl,
                                );
                              }))

  pub extract_hardware_data-Meets :
      IsReadable device → Meets Unit (IsMadeOf device) (extract_hardware_data N device)
  unfolding extract_hardware_data
  extract_hardware_data-Meets readable =
      elim (IsNotNull-cases device.primary_ip4 readable.primary_ip4) [
        | inl missing ↦
            let (name, named) = readable.named.0 in
            rw (missing, named) (Meets-bind _ _ (deref-Meets name) λ name' _. Meets-raise _)
        | inr (given, has_value) ↦
            let (ip4, e) = HasValue-get_nullable device.primary_ip4 has_value in
            let (ip, e') = HasValue-get_nullable device.primary_ip readable.primary_ip in
            let (platform, e'') = HasValue-get_nullable device.platform readable.platform in
            rw given (hardware_of_device-Meets ip4 ip platform readable e e' e'')
      ]
