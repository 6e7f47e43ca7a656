-- ===== src/KubernetesUpdater/Sync.antt =====
-- netbox_sync_reconciler.go: one round of the reconciler that polls NetBox.
pub mod Laws
pub mod Rounds
use machinecfg.Butane.Config.{Config as ButaneConfig}
use machinecfg.Prelude.{
  ℕ, ◌+◌, String, ◌<>◌, Bool, true, false, Option, none, some, List, [], ◌∷◌, Dict, ◌==◌, nat_eq,
  string_eq, ltb, if◌then◌else◌,
}
use machinecfg.Effect.{
  Outcome, Exec, Reply, good, bad, Error, ErrorKind, error, pure, raise, ask, tell, attempt, wrap,
  on_left, on_right, ◌>>=◌, ◌>>◌,
}
use machinecfg.Text.{itoa}
use machinecfg.Netbox.{Netbox}
use machinecfg.Kube.{Kube, Hardware}
use machinecfg.Common.Filters.{DeviceFilters}
use machinecfg.Tinkerbell.Hardware.{create_hardwares, create_hardwares_to_prune}
use machinecfg.Tinkerbell.Reconcile.{reconcile_existing_hardware}
use machinecfg.KubernetesUpdater.Config.{Config, config_map_name, get_backend, get_sync_interval}

-- `ctrl.Result{RequeueAfter: …}`
pub record Requeue : Type 0 where
  pub after : ℕ

module _ (N : Netbox) (K : Kube)
    (flatcar_translation fcos_translation : ButaneConfig → Outcome String) where
  abbrev pub World : Type 0
  World = N.State × K.State

  abbrev create_or_raise : Hardware → ErrorKind → Error → Exec World (Unit {0})
  create_or_raise hw ErrorKind.not_found e = do
    created ←
        wrap (λ t. "cannot create Hardware " <> hw.namespace <> "/" <> hw.name <> ": " <> t)
          (on_right (tell (K.hardware_create hw)))
    pure tt
  create_or_raise hw ErrorKind.already_exists e = raise (record e {
    text = "cannot get Hardware " <> hw.namespace <> "/" <> hw.name <> ": " <> e.text;
  })
  create_or_raise hw ErrorKind.other e = raise (record e {
    text = "cannot get Hardware " <> hw.namespace <> "/" <> hw.name <> ": " <> e.text;
  })

  abbrev apply_reply : Hardware → Reply Hardware → Exec World (Unit {0})
  apply_reply hw (bad e) = create_or_raise hw e.kind e
  apply_reply hw (good existing) =
      wrap (λ t. "cannot reconcile Hardware " <> hw.namespace <> "/" <> hw.name <> ": " <> t)
        (reconcile_existing_hardware N K hw)

  unfoldable pub apply_hardware : Hardware → Exec World (Unit {0})
  apply_hardware hw = do
    existing ← attempt (on_right (ask (K.hardware_get hw.namespace hw.name)))
    apply_reply hw existing

  abbrev gone_or_raise : Hardware → ErrorKind → Error → Exec World (Unit {0})
  gone_or_raise hw ErrorKind.not_found e = pure tt
  gone_or_raise hw ErrorKind.already_exists e = raise (record e {
    text = "cannot get Hardware " <> hw.namespace <> "/" <> hw.name <> ": " <> e.text;
  })
  gone_or_raise hw ErrorKind.other e = raise (record e {
    text = "cannot get Hardware " <> hw.namespace <> "/" <> hw.name <> ": " <> e.text;
  })

  -- The event stands on the ConfigMap; without one there is no event.
  abbrev pruned_event : Hardware → Reply (Dict String) → Exec World (Unit {0})
  pruned_event hw (bad e) = pure tt
  pruned_event hw (good cm) = on_right (
      tell (λ s. (
        good tt,
        K.record_event "Normal" "HardwarePruned"
            ("Hardware " <> hw.namespace <> "/" <> hw.name
              <> " deleted (device is offline/planned in NetBox)")
            s,
      )))

  abbrev prune_reply : String → Hardware → Reply Hardware → Exec World (Unit {0})
  prune_reply namespace hw (bad e) = gone_or_raise hw e.kind e
  prune_reply namespace hw (good existing) = do
    deleted ←
        wrap (λ t. "cannot delete Hardware " <> hw.namespace <> "/" <> hw.name <> ": " <> t)
          (on_right (tell (K.hardware_delete existing)))
    cm ← attempt (on_right (ask (K.get_config_map namespace config_map_name)))
    pruned_event hw cm

  unfoldable pub prune_hardware : String → Hardware → Exec World (Unit {0})
  prune_hardware namespace hw = do
    existing ← attempt (on_right (ask (K.hardware_get hw.namespace hw.name)))
    prune_reply namespace hw existing

  -- A loop that logs and counts the errors of its rounds.
  abbrev failures : Reply (Unit {0}) → ℕ
  failures (good _) = 0
  failures (bad e) = 1

  unfoldable pub count_failures : (Hardware → Exec World (Unit {0})) → List Hardware → Exec World ℕ
  count_failures act [] = pure 0
  count_failures act (hw ∷ hws) = do
    r ← attempt (act hw)
    n ← count_failures act hws
    pure (failures r + n)

  unfoldable pub sync_tinkerbell : String → DeviceFilters → Option String → Exec World (Unit {0})
  sync_tinkerbell namespace filters variant = do
    desired ←
        wrap (λ t. "cannot build desired Hardware list from NetBox: " <> t)
          (on_left (create_hardwares N flatcar_translation fcos_translation filters variant))
    to_prune ←
        wrap (λ t. "cannot build Hardware prune list from NetBox: " <> t)
          (on_left (create_hardwares_to_prune N filters))
    applied ← count_failures apply_hardware desired
    pruned ← count_failures (prune_hardware namespace) to_prune
    if ltb 0 (applied + pruned)
        then raise (error (itoa (applied + pruned) <> " Hardware object(s) failed to sync"))
        else pure tt

  -- Without a client, or for a backend that is not known, there is nothing to do. The `Result`
  -- beside an error is left out: it is not read.
  abbrev reconcile_with :
      {Client : Type 0} → String → Config Client → Option Client → Exec World Requeue
  reconcile_with namespace config none = pure (record { after = get_sync_interval config })
  reconcile_with namespace config (some client) =
      if get_backend config == "tinkerbell"
      then (do
        synced ← sync_tinkerbell namespace config.device_filters config.ignition_variant
        pure (record { after = get_sync_interval config }))
      else pure (record { after = get_sync_interval config })

  -- `NetBoxSyncReconciler.Reconcile`
  unfoldable pub reconcile : {Client : Type 0} → String → Config Client → Exec World Requeue
  reconcile namespace config = reconcile_with namespace config config.netbox_client
