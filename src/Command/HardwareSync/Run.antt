-- ===== src/Command/HardwareSync/Run.antt =====
-- The whole command: from the devices that NetBox lists to the two summaries.
use machinecfg.Prelude.{◌+◌, String, ◌≡◌, ◌≢◌, refl, Option, some, List, [], ◌∷◌, length, All}
use machinecfg.Effect.{Outcome, ok, ◌>>=◌}
use machinecfg.Netbox.{Netbox, Device, Page}
use machinecfg.Kube.{Kube, Hardware}
use machinecfg.Common.Filters.{DeviceFilters}
use machinecfg.Butane.Config.{Config}
use machinecfg.Tinkerbell.Hardware.Made.{IsReadable, Answers}
use machinecfg.Tinkerbell.Hardware.Picks.{Picks}
use machinecfg.Tinkerbell.Hardware.Created.{
  Devices, create_hardwares-Picks, create_hardwares_to_prune-Picks,
}
use machinecfg.Command.HardwareSync.{Summary, World, create_object, sync_objects, sync}
use machinecfg.Command.HardwareSync.Laws.{sync_objects-create_object, sync_objects-delete_object}

-- The devices of these statuses are listed, and can be read.
abbrev pub Lists : (N : Netbox) → List String → DeviceFilters → N.State → Type 0
Lists N statuses filters s =
    (page : Page Device) × Devices N statuses filters s page × All IsReadable page.results

-- A summary of the objects that are picked from the listed devices of these statuses.
abbrev pub Counts : (N : Netbox) → List String → DeviceFilters → N.State → Summary → Type 0
Counts N statuses filters s summary =
    (page : Page Device) × (hws : List Hardware) × Devices N statuses filters s page
    × Picks N s page.results hws
    × (summary.success + summary.failure ≡ length hws)

module _ (N : Netbox) (K : Kube) (flatcar fcos : Config → Outcome String)
    (answers : Answers N) where
  -- If NetBox answers the requests for prefixes, its lists show what they count, it lists only
  -- addresses of interfaces, and it lists the staged devices and, in every state, the offline and
  -- planned devices, of which the pointers that are read are not nil, then `hardware sync` always returns when it embeds no
  -- ignition: the variant is neither "flatcar" nor "fcos". The first summary counts each object
  -- that is picked from the staged devices exactly once, as a success or a failure, and the second
  -- each object that is picked from the offline and planned devices, as NetBox lists them in the
  -- state that the loop over the objects of the staged devices leaves.
  pub sync-Counts :
      (filters : DeviceFilters) (variant : Option String) (w : World N K)
      → variant ≢ some "flatcar"
      → variant ≢ some "fcos"
      → Lists N ("staged" ∷ []) filters w.0
      → ((s : N.State) → Lists N ("offline" ∷ "planned" ∷ []) filters s)
      → (page : Page Device) × (hws : List Hardware) × (created : Summary) × (deleted : Summary)
        × ((sync N K flatcar fcos filters variant w).0 ≡ ok (created, deleted))
        × Devices N ("staged" ∷ []) filters w.0 page
        × Picks N w.0 page.results hws
        × (created.success + created.failure ≡ length hws)
        × Counts N
            ("offline" ∷ "planned" ∷ [])
            filters
            (sync_objects N K (create_object N K) hws (record { success = 0; failure = 0 }) w).1.0
            deleted
  unfolding sync ◌>>=◌
  sync-Counts filters variant w not_flatcar not_fcos staged gone =
      let (page, listed, readable) = staged in
      let (hws, made, picks) =
        create_hardwares-Picks N answers flatcar fcos filters variant w.0 page not_flatcar not_fcos
          listed readable in
      let (created, did, counted) = sync_objects-create_object N K hws w in
      let after =
        (sync_objects N K (create_object N K) hws (record { success = 0; failure = 0 }) w).1 in
      let (page', listed', readable') = gone after.0 in
      let (hws', made', picks') =
        create_hardwares_to_prune-Picks N answers filters after.0 page' listed' readable' in
      let (deleted, did', counted') = sync_objects-delete_object N K hws' after in
      (
        page,
        hws,
        created,
        deleted,
        rw (made, did, made', did') refl,
        listed,
        picks,
        counted,
        (page', hws', listed', picks', counted'),
      )
