-- ===== src/Tinkerbell/Status.antt =====
-- sync_status.go: the status of NetBox's devices follows the annotation of the Hardware objects.
pub mod Laws
pub mod Held
pub mod Settles
use machinecfg.Prelude.{
  ℕ, String, ◌<>◌, Bool, true, false, Option, none, some, List, [], ◌∷◌, ◌++◌, lookup, ◌==◌,
  string_eq, if◌then◌else◌,
}
use machinecfg.Effect.{
  Exec, Reply, good, bad, Error, pure, ask, tell, attempt, wrap, on_left, on_right, ◌>>=◌,
}
use machinecfg.Text.{itoa, parse_int32}
use machinecfg.Netbox.{Netbox}
use machinecfg.Kube.{Kube, Hardware}
use machinecfg.Tinkerbell.Names.{
  annotation_provisioned, label_netbox_device_id, status_active, status_staged,
}

pub record SyncStatusResult : Type 0 where
  pub hostname : String
  pub device_id : ℕ
  pub updated : Bool
  pub error : String

-- `setDeviceStatus`, and its exported wrapper `SetDeviceStatus`.
unfoldable pub set_device_status : (N : Netbox) → ℕ → String → Exec N.State Bool
set_device_status N device_id target_status = do
  device ←
      wrap (λ t. "cannot retrieve NetBox device " <> itoa device_id <> ": " <> t)
        (ask (N.devices_retrieve device_id))
  if device.status_value == target_status
      then pure false
      else (do patched ← tell (N.devices_set_status device_id target_status); pure true)

-- The status that an annotation asks for; none if it has another value than "true".
abbrev pub target_of_annotation : Option String → Option String
target_of_annotation none = some status_staged
target_of_annotation (some v) = if v == "true" then some status_active else none

abbrev pub unnamed : String → SyncStatusResult
unnamed hostname = record { hostname = hostname; device_id = 0; updated = false; error = "" }

abbrev pub missing_label : String → SyncStatusResult
missing_label hostname = record (unnamed hostname) { error = "label netbox-device-id missing" }

abbrev pub with_status : String → ℕ → Reply Bool → SyncStatusResult
with_status hostname device_id (good updated) = record (unnamed hostname) {
  device_id = device_id;
  updated = updated;
}
with_status hostname device_id (bad e) = record (unnamed hostname) {
  device_id = device_id;
  error = e.text;
}

module _ (N : Netbox) where
  abbrev update_device : String → String → String → Reply ℕ → Exec N.State SyncStatusResult
  update_device hostname device_id_str target (bad e) =
      pure (record (unnamed hostname) { error = "invalid netbox-device-id: " <> device_id_str })
  update_device hostname device_id_str target (good device_id) = do
    updated ← attempt (set_device_status N device_id target)
    pure (with_status hostname device_id updated)

  abbrev update_labelled : String → String → Option String → Exec N.State SyncStatusResult
  update_labelled hostname target none = pure (missing_label hostname)
  update_labelled hostname target (some device_id_str) =
      if device_id_str == ""
      then pure (missing_label hostname)
      else update_device hostname device_id_str target (parse_int32 device_id_str)

  abbrev update_if_target : Hardware → Option String → Exec N.State (List SyncStatusResult)
  update_if_target hw none = pure []
  update_if_target hw (some target) = do
    result ← update_labelled hw.name target (lookup label_netbox_device_id hw.labels)
    pure (result ∷ [])

  -- The body of the loop of `SyncStatus`.
  unfoldable pub sync_hardware : Hardware → Exec N.State (List SyncStatusResult)
  sync_hardware hw =
      update_if_target hw (target_of_annotation (lookup annotation_provisioned hw.annotations))

  unfoldable pub sync_hardwares : List Hardware → Exec N.State (List SyncStatusResult)
  sync_hardwares [] = pure []
  sync_hardwares (hw ∷ hws) = do
    results ← sync_hardware hw
    rest ← sync_hardwares hws
    pure (results ++ rest)

-- An empty list of objects only adds a warning.
unfoldable pub sync_status :
    (N : Netbox) (K : Kube) → String → Exec (N.State × K.State) (List SyncStatusResult)
sync_status N K namespace = do
  items ←
      wrap (λ t. "cannot list Hardware in namespace " <> namespace <> ": " <> t)
        (on_right (ask (K.hardware_list namespace)))
  on_left (sync_hardwares N items)
