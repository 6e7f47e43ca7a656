-- ===== src/Tinkerbell/Reconcile.antt =====
-- hardware.go: `ReconcileExistingHardware`.
pub mod Laws
pub mod Answers
pub mod Patched
pub mod Activated
use machinecfg.Prelude.{
  ℕ, String, ◌<>◌, Bool, true, false, not, List, [], ◌∷◌, Dict, insert, get_text, ◌==◌, string_eq,
  if◌then◌else◌,
}
use machinecfg.Effect.{Exec, pure, ask, tell, wrap, on_left, on_right, of_reply, ◌>>=◌}
use machinecfg.Text.{itoa, quoted, parse_int32}
use machinecfg.Netbox.{Netbox}
use machinecfg.Kube.{Kube, Hardware}
use machinecfg.Tinkerbell.Names.{annotation_provisioned, label_netbox_device_id, status_active}
use machinecfg.Tinkerbell.Status.{set_device_status}

-- The loop over the desired labels: the labels so far, and whether one of them changed. A missing
-- key reads as the empty text.
unfoldable pub merge_labels : Dict String → Bool → Dict String → Dict String × Bool
merge_labels labels needs_patch [] = (labels, needs_patch)
merge_labels labels needs_patch ((key, desired) ∷ more) =
    let differs = not (get_text labels key == desired) in
    merge_labels (if differs then insert key desired labels else labels)
      (if differs then true else needs_patch) more

module _ (N : Netbox) (K : Kube) where
  abbrev pub World : Type 0
  World = N.State × K.State

  -- The object after its labels are patched: the answer of the patch, if one was needed.
  unfoldable pub patch_labels : Hardware → Hardware → Exec K.State Hardware
  patch_labels existing desired =
      let merged = merge_labels existing.labels false desired.labels in
      if merged.1
      then wrap
          (λ t.
            "cannot patch labels on " <> existing.namespace <> "/" <> existing.name <> ": " <> t)
          (tell (K.hardware_patch existing (record existing { labels = merged.0 })))
      else pure existing

  -- A provisioned object makes its device active.
  unfoldable pub activate_device : Hardware → Hardware → Exec N.State (Unit {0})
  activate_device existing desired =
      let label = get_text desired.labels label_netbox_device_id in
      if get_text existing.annotations annotation_provisioned == "true"
      then (do
        device_id ←
            wrap
              (λ t.
                "invalid netbox-device-id "
                <> quoted label
                <> " on "
                <> existing.namespace
                <> "/"
                <> existing.name
                <> ": "
                <> t)
              (ask (λ _. parse_int32 label))
        updated ←
            wrap (λ t. "cannot transition NetBox device " <> itoa device_id <> " to active: " <> t)
              (set_device_status N device_id status_active)
        pure tt)
      else pure tt

  unfoldable pub reconcile_existing_hardware : Hardware → Exec World (Unit {0})
  reconcile_existing_hardware desired = do
    existing ←
        wrap
          (λ t.
            "cannot get existing Hardware " <> desired.namespace <> "/" <> desired.name <> ": "
            <> t)
          (on_right (ask (K.hardware_get desired.namespace desired.name)))
    labelled ← on_right (patch_labels existing desired)
    on_left (activate_device labelled desired)
