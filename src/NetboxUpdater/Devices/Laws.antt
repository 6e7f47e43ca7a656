-- ===== src/NetboxUpdater/Devices/Laws.antt =====
-- The controller against the command that does the same work for a whole namespace.
use machinecfg.Prelude.{
  ◌<◌, String, ◌≡◌, refl, ◌⊎◌, inl, inr, Option, none, some, Dict, lookup, or_empty, Bool-cases,
  ◌==◌, string_eq, if◌then◌else◌,
}
use machinecfg.Effect.{good}
use machinecfg.Text.{int32_mod}
use machinecfg.Text.Decimal.{parse_int32-itoa, itoa-NonEmpty}
use machinecfg.Netbox.{Device}
use machinecfg.Tinkerbell.Names.{annotation_provisioned, status_staged}
use machinecfg.Tinkerbell.Hardware.Labels.{labels_of}
use machinecfg.Tinkerbell.Status.{target_of_annotation}
use machinecfg.NetboxUpdater.Devices.{target_netbox_status, device_id_from_labels}

-- The controller sets the status that the command would set, and "staged" where the command skips
-- the object because of another value of the annotation.
pub target_netbox_status-agrees :
    (annotations : Dict String)
    → (target_of_annotation (lookup annotation_provisioned annotations)
        ≡ some (target_netbox_status annotations))
      ⊎ ((target_of_annotation (lookup annotation_provisioned annotations) ≡ none)
          × (target_netbox_status annotations ≡ status_staged))
unfolding target_netbox_status
target_netbox_status-agrees annotations = go (lookup annotation_provisioned annotations)
  where
    go :
        (value : Option String)
        → (target_of_annotation value
            ≡ some (if or_empty value == "true" then "active" else status_staged))
          ⊎ ((target_of_annotation value ≡ none)
              × ((if or_empty value == "true" then "active" else status_staged) ≡ status_staged))
    go none = inl refl
    go (some v) = elim (Bool-cases (v == "true")) [
      | inl e ↦ rw e (inl refl)
      | inr e ↦ rw e (inr (refl, refl))
    ]

-- The controller reads the number of the device back from the labels that were made for it.
pub device_id_from_labels-labels_of :
    (device : Device) (serial : String)
    → device.id < int32_mod
    → device_id_from_labels (labels_of device serial) ≡ good device.id
unfolding device_id_from_labels
device_id_from_labels-labels_of device serial h =
    rw (itoa-NonEmpty device.id h, parse_int32-itoa device.id h)
