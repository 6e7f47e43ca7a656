-- ===== src/NetboxUpdater/Devices.antt =====
-- hardware_reconciler.go: the status of a device follows the annotation of its Hardware object.
pub mod Laws
pub mod Moves
use machinecfg.Prelude.{
  ℕ, String, ◌<>◌, Bool, true, false, Option, none, some, lookup, get_text, Dict, ◌==◌, string_eq,
  if◌then◌else◌,
}
use machinecfg.Effect.{
  Exec, Reply, good, bad, Error, ErrorKind, error, pure, raise, ask, tell, attempt, on_left,
  on_right, ◌>>=◌, ◌>>◌,
}
use machinecfg.Text.{itoa, quoted, parse_int32}
use machinecfg.Netbox.{Netbox}
use machinecfg.Kube.{Kube, Gvk}
use machinecfg.Tinkerbell.Names.{
  annotation_provisioned, label_netbox_device_id, status_active, status_staged,
}
use machinecfg.Tinkerbell.Status.{set_device_status}

abbrev pub hardware_gvk : Gvk
hardware_gvk = record { group = "tinkerbell.org"; version = "v1alpha1"; kind = "Hardware" }

abbrev parsed_label : String → Reply ℕ → Reply ℕ
parsed_label val (good id) = good id
parsed_label val (bad e) =
    bad (error ("invalid " <> quoted label_netbox_device_id <> " label value " <> quoted val))

abbrev labelled_id : Option String → Reply ℕ
labelled_id none = bad (error ("label " <> quoted label_netbox_device_id <> " missing"))
labelled_id (some val) =
    if val == ""
    then bad (error ("label " <> quoted label_netbox_device_id <> " missing"))
    else parsed_label val (parse_int32 val)

-- `deviceIDFromLabels`
unfoldable pub device_id_from_labels : Dict String → Reply ℕ
unfolding parse_int32
device_id_from_labels labels = labelled_id (lookup label_netbox_device_id labels)

-- `targetNetBoxStatus`: the status is its own display name.
unfoldable pub target_netbox_status : Dict String → String
target_netbox_status annotations =
    if get_text annotations annotation_provisioned == "true" then status_active else status_staged

module _ (N : Netbox) (K : Kube) where
  abbrev pub World : Type 0
  World = N.State × K.State

  abbrev record_event : String → String → String → Exec World (Unit {0})
  record_event type reason message =
      on_right (tell (λ s. (good tt, K.record_event type reason message s)))

  abbrev report : ℕ → String → Reply Bool → Exec World Bool
  report device_id target (bad e) = do
    record_event "Warning" "NetBoxUpdateFailed"
        ("Failed to set NetBox device " <> itoa device_id <> " to " <> target <> ": " <> e.text)
    raise (record e {
      text = "cannot set NetBox device " <> itoa device_id <> " to " <> target <> ": " <> e.text;
    })
  report device_id target (good true) = do
    record_event "Normal" "NetBoxUpdated"
        ("NetBox device " <> itoa device_id <> " status set to " <> target)
    pure false
  report device_id target (good false) = pure false

  abbrev update_device : String → Reply ℕ → Exec World Bool
  update_device target (bad e) = pure false
  update_device target (good device_id) = do
    updated ← attempt (on_left (set_device_status N device_id target))
    report device_id target updated

  abbrev get_failed : String → String → ErrorKind → Error → Exec World Bool
  get_failed namespace name ErrorKind.not_found e = pure false
  get_failed namespace name ErrorKind.already_exists e =
      raise
        (record e { text = "cannot get Hardware " <> namespace <> "/" <> name <> ": " <> e.text })
  get_failed namespace name ErrorKind.other e =
      raise
        (record e { text = "cannot get Hardware " <> namespace <> "/" <> name <> ": " <> e.text })

  abbrev update_hardware : String → String → Reply K.Object → Exec World Bool
  update_hardware namespace name (bad e) = get_failed namespace name e.kind e
  update_hardware namespace name (good hw) =
      update_device (target_netbox_status (K.object_annotations hw))
        (device_id_from_labels (K.object_labels hw))

  abbrev with_client : {Client : Type 0} → String → String → Option Client → Exec World Bool
  with_client namespace name none = pure true
  with_client namespace name (some client) = do
    hw ← attempt (on_right (ask (K.get_object hardware_gvk namespace name)))
    update_hardware namespace name hw

  -- `HardwareReconciler.Reconcile`, which returns whether the object is put back in the queue.
  unfoldable pub reconcile_hardware :
      {Client : Type 0} → Option Client → String → String → Exec World Bool
  unfolding target_netbox_status device_id_from_labels
  reconcile_hardware netbox_client namespace name = with_client namespace name netbox_client
