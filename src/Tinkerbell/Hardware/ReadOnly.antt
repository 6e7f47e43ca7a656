-- ===== src/Tinkerbell/Hardware/ReadOnly.antt =====
-- The functions that make something of devices, of pkg/butane, pkg/talos and pkg/tinkerbell, and
-- the state of NetBox.
use machinecfg.Prelude.{String, ◌≡◌, Option}
use machinecfg.Effect.{Outcome}
use machinecfg.Effect.Moves.{keeps}
use machinecfg.Netbox.{Netbox}
use machinecfg.Common.Filters.{DeviceFilters}
use machinecfg.Butane.Config.{Config}
use machinecfg.Butane.Flatcar.{create_flatcars}
use machinecfg.Butane.Flatcar.Reads.{create_flatcars-Moves}
use machinecfg.Butane.Fcos.{create_fcoss}
use machinecfg.Butane.Fcos.Reads.{create_fcoss-Moves}
use machinecfg.Talos.{create_talos_configs}
use machinecfg.Talos.Reads.{create_talos_configs-Moves}
use machinecfg.Tinkerbell.Hardware.{create_hardwares, create_hardwares_to_prune}
use machinecfg.Tinkerbell.Hardware.Reads.{create_hardwares-Moves, create_hardwares_to_prune-Moves}

-- The Flatcar, Fedora CoreOS and Talos configurations, the Hardware objects and those that are to
-- be pruned are made without a change to NetBox, however it ends: with a result, an error or a
-- panic.
pub creations-change_nothing :
    (N : Netbox) (flatcar fcos : Config → Outcome String) (filters : DeviceFilters)
    (variant : Option String) (s : N.State)
    → ((create_flatcars N filters s).1 ≡ s)
      × ((create_fcoss N filters s).1 ≡ s)
      × ((create_talos_configs N filters s).1 ≡ s)
      × ((create_hardwares N flatcar fcos filters variant s).1 ≡ s)
      × ((create_hardwares_to_prune N filters s).1 ≡ s)
creations-change_nothing N flatcar fcos filters variant s = (
  (create_flatcars-Moves N {P = keeps (λ s. s)} filters).at s,
  (create_fcoss-Moves N {P = keeps (λ s. s)} filters).at s,
  (create_talos_configs-Moves N {P = keeps (λ s. s)} filters).at s,
  (create_hardwares-Moves N {P = keeps (λ s. s)} flatcar fcos filters variant).at s,
  (create_hardwares_to_prune-Moves N {P = keeps (λ s. s)} filters).at s,
)
