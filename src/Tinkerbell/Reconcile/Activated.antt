-- ===== src/Tinkerbell/Reconcile/Activated.antt =====
-- The device that a provisioned object makes active.
use machinecfg.Prelude.{◌<◌, String, ◌≡◌, refl, ap, Bool, true, get_text, ◌==◌, string_eq}
use machinecfg.Effect.{Outcome, ok, err, panic, continue, pure, wrapped, ◌>>=◌}
use machinecfg.Text.{int32_mod, itoa}
use machinecfg.Text.Decimal.{parse_int32-itoa}
use machinecfg.Netbox.{Netbox, Device}
use machinecfg.Kube.{Kube, Hardware}
use machinecfg.Tinkerbell.Names.{annotation_provisioned, label_netbox_device_id, status_active}
use machinecfg.Tinkerbell.Hardware.Labels.{labels_of}
use machinecfg.Tinkerbell.Status.{set_device_status}
use machinecfg.Tinkerbell.Reconcile.{activate_device}

module _ (N : Netbox) (K : Kube) where
  then_done :
      (f : String → String) (o : Outcome Bool) (s : N.State)
      → (continue (wrapped f o) (λ _. pure {A = Unit {0}} tt) s).1 ≡ s
  unfolding pure
  then_done f (ok b) s = refl
  then_done f (err e) s = refl
  then_done f panic s = refl

  -- A provisioned object whose desired labels are those of a device, whose number is an int32,
  -- leaves NetBox as it is after that very device is set to active, and nothing else.
  pub activate_device-labels_of :
      (existing desired : Hardware) (device : Device) (serial : String) (s : N.State)
      → device.id < int32_mod
      → desired.labels ≡ labels_of device serial
      → (get_text existing.annotations annotation_provisioned == "true") ≡ true
      → (activate_device N K existing desired s).1
        ≡ (set_device_status N device.id status_active s).1
  unfolding activate_device ◌>>=◌
  activate_device-labels_of existing desired device serial s h labelled provisioned =
      let label : get_text desired.labels label_netbox_device_id ≡ itoa device.id =
        ap (λ m. get_text m label_netbox_device_id) labelled in
      rw (provisioned, label, parse_int32-itoa device.id h)
        (then_done _ _ (set_device_status N device.id status_active s).1)
