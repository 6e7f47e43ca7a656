-- ===== src/Tinkerbell/Hardware/Picks.antt =====
-- The loops over the devices: which objects they return, and of which devices.
use machinecfg.Prelude.{
  String, ◌≡◌, ◌≢◌, refl, ap, Option, some, List, [], ◌∷◌, All, inl, inr, string_eq,
}
use machinecfg.Effect.{Outcome, ok, err, Error, ◌>>=◌}
use machinecfg.Effect.Reads.{read-cases}
use machinecfg.Netbox.{Netbox, Device}
use machinecfg.Kube.{Hardware}
use machinecfg.Butane.Config.{Config}
use machinecfg.Tinkerbell.Hardware.{extract_hardware_data, hardwares_of_devices, hardwares_to_prune}
use machinecfg.Tinkerbell.Hardware.Made.{IsReadable, Answers, IsMadeOf}
use machinecfg.Tinkerbell.Hardware.Extracted.{extract_hardware_data-Meets}
use machinecfg.Tinkerbell.Hardware.Embedded.{embed_ignition-none}
use machinecfg.Tinkerbell.Hardware.Reads.{extract_hardware_data-Moves}

-- The objects of the devices that can be extracted, in the order of the devices, made of them.
pub data Picks (N : Netbox) (s : N.State) : List Device → List Hardware → Type 0 where
  nothing : Picks N s [] []
  kept :
      {device : Device} {hw : Hardware} {devices : List Device} {hws : List Hardware}
      → (extract_hardware_data N device s).0 ≡ ok hw
      → IsMadeOf device hw
      → Picks N s devices hws
      → Picks N s (device ∷ devices) (hw ∷ hws)
  left_out :
      {device : Device} {devices : List Device} {hws : List Hardware}
      → (e : Error) → (extract_hardware_data N device s).0 ≡ err e
      → Picks N s devices hws
      → Picks N s (device ∷ devices) hws

module _ (N : Netbox) (flatcar fcos : Config → Outcome String) (answers : Answers N) where
  pub hardwares_of_devices-Picks :
      (variant : Option String) (devices : List Device) (s : N.State)
      → variant ≢ some "flatcar"
      → variant ≢ some "fcos"
      → All IsReadable devices
      → (hws : List Hardware) × (hardwares_of_devices N flatcar fcos variant devices s
          ≡ (ok hws, s))
        × Picks N s devices hws
  unfolding hardwares_of_devices ◌>>=◌
  hardwares_of_devices-Picks variant [] s not_flatcar not_fcos readable = ([], refl, nothing)
  hardwares_of_devices-Picks variant (device ∷ devices) s not_flatcar not_fcos (here, there) =
      let (hws, rest, picks) =
        hardwares_of_devices-Picks variant devices s not_flatcar not_fcos there in
      elim (read-cases (extract_hardware_data N device) s (extract_hardware_data-Moves N device)
        (extract_hardware_data-Meets N answers device here)) [
          | inl (made, extracted, is_made) ↦
              let embedded =
                embed_ignition-none N flatcar fcos variant device.id made s not_flatcar not_fcos in
              (
                made ∷ hws,
                rw (extracted, embedded, rest),
                kept (ap (λ r. r.0) extracted) is_made picks,
              )
          | inr (e, failed) ↦
              let (name, named) = here.named.0 in
              (hws, rw (failed, named, rest), left_out e (ap (λ r. r.0) failed) picks)
        ]

module _ (N : Netbox) (answers : Answers N) where
  pub hardwares_to_prune-Picks :
      (devices : List Device) (s : N.State)
      → All IsReadable devices
      → (hws : List Hardware) × (hardwares_to_prune N devices s ≡ (ok hws, s))
        × Picks N s devices hws
  unfolding hardwares_to_prune ◌>>=◌
  hardwares_to_prune-Picks [] s readable = ([], refl, nothing)
  hardwares_to_prune-Picks (device ∷ devices) s (here, there) =
      let (hws, rest, picks) = hardwares_to_prune-Picks devices s there in
      elim (read-cases (extract_hardware_data N device) s (extract_hardware_data-Moves N device)
        (extract_hardware_data-Meets N answers device here)) [
          | inl (made, extracted, is_made) ↦
              (made ∷ hws, rw (extracted, rest), kept (ap (λ r. r.0) extracted) is_made picks)
          | inr (e, failed) ↦
              let (name, named) = here.named.0 in
              (hws, rw (failed, named, rest), left_out e (ap (λ r. r.0) failed) picks)
        ]
