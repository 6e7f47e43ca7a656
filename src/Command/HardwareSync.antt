-- ===== src/Command/HardwareSync.antt =====
-- hardware_sync.go: the command that creates and deletes the Hardware objects of a Kubernetes
-- cluster. `flatcar_translation` and `fcos_translation` stand for the translation of configurations
-- by Butane.
pub mod Laws
pub mod Run
use machinecfg.Butane.Config.{Config}
use machinecfg.Prelude.{
  ℕ, ◌+◌, String, Bool, true, false, Option, none, some, List, [], ◌∷◌, if◌then◌else◌,
}
use machinecfg.Effect.{
  Outcome, Exec, Reply, good, bad, ErrorKind, pure, tell, attempt, on_left, on_right, ◌>>=◌,
}
use machinecfg.Netbox.{Netbox}
use machinecfg.Kube.{Kube, Hardware}
use machinecfg.Common.Filters.{DeviceFilters}
use machinecfg.Tinkerbell.Hardware.{create_hardwares, create_hardwares_to_prune}
use machinecfg.Tinkerbell.Reconcile.{reconcile_existing_hardware}

-- `successCounter` and `failureCounter`
pub record Summary : Type 0 where
  pub success : ℕ
  pub failure : ℕ

abbrev pub counted : Bool → Summary → Summary
counted true s = record s { success = s.success + 1 }
counted false s = record s { failure = s.failure + 1 }

-- The variant of the ignition to embed, if one is asked for.
abbrev pub embedded_variant : Bool → String → Option String
embedded_variant embed_ignition variant = if embed_ignition then some variant else none

module _ (N : Netbox) (K : Kube) where
  abbrev pub World : Type 0
  World = N.State × K.State

  abbrev succeeded : {A : Type 0} → Reply A → Bool
  succeeded (good a) = true
  succeeded (bad e) = false

  abbrev after_conflict : Hardware → ErrorKind → Exec World Bool
  after_conflict h ErrorKind.already_exists = do
    r ← attempt (reconcile_existing_hardware N K h)
    pure (succeeded r)
  after_conflict h ErrorKind.not_found = pure false
  after_conflict h ErrorKind.other = pure false

  abbrev after_create : Hardware → Reply Hardware → Exec World Bool
  after_create h (good created) = pure true
  after_create h (bad e) = after_conflict h e.kind

  -- The bodies of the two loops: whether the object counts as a success.
  unfoldable pub create_object : Hardware → Exec World Bool
  create_object h = do
    created ← attempt (on_right (tell (K.hardware_create h)))
    after_create h created

  unfoldable pub delete_object : Hardware → Exec World Bool
  delete_object h = do
    deleted ← attempt (on_right (tell (K.hardware_delete h)))
    pure (succeeded deleted)

  unfoldable pub sync_objects :
      (Hardware → Exec World Bool) → List Hardware → Summary → Exec World Summary
  sync_objects act [] summary = pure summary
  sync_objects act (h ∷ hs) summary = do
    success ← act h
    sync_objects act hs (counted success summary)

  module _ (flatcar_translation fcos_translation : Config → Outcome String) where
    -- `syncCmd` with a Kubernetes client: the summaries of the creation and of the deletion. A
    -- `fatalExit` is an error.
    unfoldable pub sync : DeviceFilters → Option String → Exec World (Summary × Summary)
    sync filters variant = do
      hardwares ← on_left (create_hardwares N flatcar_translation fcos_translation filters variant)
      created ← sync_objects create_object hardwares (record { success = 0; failure = 0 })
      to_prune ← on_left (create_hardwares_to_prune N filters)
      deleted ← sync_objects delete_object to_prune (record { success = 0; failure = 0 })
      pure (created, deleted)
