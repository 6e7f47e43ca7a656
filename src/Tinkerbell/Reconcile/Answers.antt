-- ===== src/Tinkerbell/Reconcile/Answers.antt =====
-- hardware.go: how `ReconcileExistingHardware` ends.
use machinecfg.Prelude.{false, get_text, ◌==◌, string_eq}
use machinecfg.Effect.Meets.{
  Meets, Meets-pure, Meets-if, Meets-bind, Meets-wrap, Meets-on_left, Meets-on_right, Anything,
  ask-Meets, tell-Meets,
}
use machinecfg.Netbox.{Netbox}
use machinecfg.Kube.{Kube, Hardware}
use machinecfg.Tinkerbell.Names.{annotation_provisioned, status_active}
use machinecfg.Tinkerbell.Status.Laws.{set_device_status-Meets}
use machinecfg.Tinkerbell.Reconcile.{
  merge_labels, patch_labels, activate_device, reconcile_existing_hardware,
}

module _ (N : Netbox) (K : Kube) where
  patch_labels-Meets :
      (existing desired : Hardware) → Meets Unit Anything (patch_labels N K existing desired)
  unfolding patch_labels
  patch_labels-Meets existing desired =
      Meets-if (merge_labels existing.labels false desired.labels).1 _ _
        (λ _. Meets-wrap _ _ (tell-Meets _)) (λ _. Meets-pure _ tt)

  activate_device-Meets :
      (existing desired : Hardware) → Meets Unit Anything (activate_device N K existing desired)
  unfolding activate_device
  activate_device-Meets existing desired =
      Meets-if (get_text existing.annotations annotation_provisioned == "true") _ _
        (λ _. Meets-bind _ _ (Meets-wrap _ _ (ask-Meets _)) λ device_id _.
          Meets-bind _ _ (Meets-wrap _ _ (set_device_status-Meets N device_id status_active))
            λ updated _. Meets-pure _ tt)
        (λ _. Meets-pure _ tt)

  pub reconcile_existing_hardware-Meets :
      (hw : Hardware) → Meets Unit Anything (reconcile_existing_hardware N K hw)
  unfolding reconcile_existing_hardware
  reconcile_existing_hardware-Meets hw =
      Meets-bind _ _ (Meets-wrap _ _ (Meets-on_right _ (ask-Meets _))) λ existing _.
        Meets-bind _ _ (Meets-on_right _ (patch_labels-Meets existing hw))
          λ labelled _. Meets-on_left _ (activate_device-Meets labelled hw)
