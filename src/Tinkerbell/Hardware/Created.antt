-- ===== src/Tinkerbell/Hardware/Created.antt =====
-- The objects that `CreateHardwares` and `CreateHardwaresToPrune` return.
use machinecfg.Prelude.{String, ◌≡◌, ◌≢◌, Option, some, List, [], ◌∷◌, All}
use machinecfg.Effect.{Outcome, ok, ◌>>=◌}
use machinecfg.Effect.Reads.{ended}
use machinecfg.Netbox.{Netbox, Device, Page}
use machinecfg.Kube.{Hardware}
use machinecfg.Common.{get_devices}
use machinecfg.Common.Filters.{DeviceFilters}
use machinecfg.Common.Reads.{get_devices-Moves}
use machinecfg.Butane.Config.{Config}
use machinecfg.Tinkerbell.Hardware.{with_statuses, create_hardwares, create_hardwares_to_prune}
use machinecfg.Tinkerbell.Hardware.Made.{IsReadable, Answers}
use machinecfg.Tinkerbell.Hardware.Picks.{
  Picks, hardwares_of_devices-Picks, hardwares_to_prune-Picks,
}

abbrev pub Devices : (N : Netbox) → List String → DeviceFilters → N.State → Page Device → Type 0
Devices N statuses filters s page = (get_devices N (with_statuses statuses filters) s).0 ≡ ok page

module _ (N : Netbox) (answers : Answers N) where
  listed :
      (statuses : List String) (filters : DeviceFilters) (s : N.State) (page : Page Device)
      → Devices N statuses filters s page
      → get_devices N (with_statuses statuses filters) s ≡ (ok page, s)
  listed statuses filters s page h =
      ended (get_devices N (with_statuses statuses filters)) s
        (get_devices-Moves N (with_statuses statuses filters)) h

  -- If NetBox answers the requests for prefixes, its lists show what they count and it lists only
  -- addresses of interfaces, then for the staged devices that `GetDevices` lists, of which the
  -- pointers that are read are not nil, `CreateHardwares` never panics and never fails, and writes
  -- nothing: it returns, in the order of the devices, one object for each device that can be
  -- extracted, made of that very device, and leaves out exactly the devices of which the
  -- extraction is an error. This is stated of runs that embed no ignition: the variant is neither
  -- "flatcar" nor "fcos".
  pub create_hardwares-Picks :
      (flatcar fcos : Config → Outcome String) (filters : DeviceFilters) (variant : Option String)
      (s : N.State) (page : Page Device)
      → variant ≢ some "flatcar"
      → variant ≢ some "fcos"
      → Devices N ("staged" ∷ []) filters s page
      → All IsReadable page.results
      → (hws : List Hardware) × (create_hardwares N flatcar fcos filters variant s ≡ (ok hws, s))
        × Picks N s page.results hws
  unfolding create_hardwares ◌>>=◌
  create_hardwares-Picks flatcar fcos filters variant s page not_flatcar not_fcos found readable =
      let (hws, made, picks) =
        hardwares_of_devices-Picks N flatcar fcos answers variant page.results s not_flatcar
          not_fcos readable in
      (hws, rw (listed ("staged" ∷ []) filters s page found, made), picks)

  -- Under the same conditions on NetBox, `CreateHardwaresToPrune` returns the same of the offline
  -- and planned devices.
  pub create_hardwares_to_prune-Picks :
      (filters : DeviceFilters) (s : N.State) (page : Page Device)
      → Devices N ("offline" ∷ "planned" ∷ []) filters s page
      → All IsReadable page.results
      → (hws : List Hardware) × (create_hardwares_to_prune N filters s ≡ (ok hws, s))
        × Picks N s page.results hws
  unfolding create_hardwares_to_prune ◌>>=◌
  create_hardwares_to_prune-Picks filters s page found readable =
      let (hws, made, picks) = hardwares_to_prune-Picks N answers page.results s readable in
      (hws, rw (listed ("offline" ∷ "planned" ∷ []) filters s page found, made), picks)
