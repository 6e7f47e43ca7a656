-- ===== src/Examples/Machines.antt =====
-- The theorems on machines, on the small NetBox and the small Kubernetes.
use machinecfg.Tinkerbell.Reconcile.Activated.{activate_device-labels_of}
use machinecfg.Tinkerbell.Reconcile.Patched.{KeepsLabels, patch_labels-get_text}
use machinecfg.Prelude.{
  ap, sym, string_eq, ◌==◌, if◌then◌else◌, Bool, String, ◌≡◌, refl, true, false, none, List, [],
  ◌∷◌, map, get_text, arith, All, Dict,
}
use machinecfg.Effect.{Reply, bad, wrap, tell, good, ok, err, error, pure, attempt, Error, ◌>>=◌}
use machinecfg.Kube.{Hardware, HardwareInterface}
use machinecfg.Common.Filters.{DeviceFilters}
use machinecfg.Tinkerbell.Hardware.Labels.{labels_of}
use machinecfg.Tinkerbell.Reconcile.{patch_labels, activate_device, merge_labels}
use machinecfg.Tinkerbell.Reconcile.Laws.{merge_labels-get_text}
use machinecfg.Tinkerbell.Patches.{set_allow_pxe, patch_all, patch_hardware}
use machinecfg.Tinkerbell.Patches.Laws.{
  BootsPxe, allow_workflow_of, set_allow_pxe-BootsPxe, patch_all-stops,
}
use machinecfg.Tinkerbell.Status.{
  SyncStatusResult, set_device_status, sync_hardware, sync_hardwares, with_status,
}
use machinecfg.Tinkerbell.Status.Laws.{sync_hardwares-reports, sync_hardware-labels_of}
use machinecfg.Examples.{small_netbox, small_kube, store, first_device, hardware_named}

abbrev old_labels : Dict String
old_labels = ("site", "lyon") ∷ ("owner", "ops") ∷ []

abbrev new_labels : Dict String
new_labels = ("site", "paris") ∷ ("role", "worker") ∷ []

merge_labels-get_text_example :
    get_text (merge_labels old_labels false new_labels).0 "site" ≡ "paris"
merge_labels-get_text_example = merge_labels-get_text new_labels old_labels false "site"

abbrev provisioned : Hardware
provisioned =
    hardware_named "node-1" (labels_of first_device "S1")
      (("v1alpha1.tinkerbell.org/provisioned", "true") ∷ [])

abbrev failed_hardware : Hardware
failed_hardware =
    hardware_named "node-2" [] (("v1alpha1.tinkerbell.org/provisioned", "failed") ∷ [])

abbrev unlabelled : Hardware
unlabelled = hardware_named "node-3" [] []

sync_hardwares-reports_example :
    (rs : List SyncStatusResult) × ((sync_hardwares small_netbox
        (provisioned ∷ failed_hardware ∷ unlabelled ∷ [])
        store).0
      ≡ ok rs)
    × (map (λ r. r.hostname) rs ≡ "node-1" ∷ "node-3" ∷ [])
sync_hardwares-reports_example =
    sync_hardwares-reports small_netbox (provisioned ∷ failed_hardware ∷ unlabelled ∷ []) store

sync_hardware-labels_of_example :
    sync_hardware small_netbox provisioned store
    ≡ (attempt (set_device_status small_netbox 42 "active") >>= λ updated.
          pure (with_status "node-1" 42 updated ∷ []))
        store
sync_hardware-labels_of_example =
    sync_hardware-labels_of small_netbox provisioned first_device "S1" "active" (omega arith) refl
      refl store

abbrev one_interface : HardwareInterface
one_interface = record { dhcp = none; disable_dhcp = false; netboot = none }

set_allow_pxe-BootsPxe_example :
    All BootsPxe (set_allow_pxe (record provisioned { interfaces = one_interface ∷ [] })).interfaces
    × (map
          (λ i. i.dhcp)
          (set_allow_pxe (record provisioned { interfaces = one_interface ∷ [] })).interfaces
        ≡ none ∷ [])
    × (map allow_workflow_of
          (set_allow_pxe (record provisioned { interfaces = one_interface ∷ [] })).interfaces
        ≡ map allow_workflow_of (one_interface ∷ []))
    × ((set_allow_pxe (record provisioned { interfaces = one_interface ∷ [] })).labels
        ≡ provisioned.labels)
set_allow_pxe-BootsPxe_example =
    set_allow_pxe-BootsPxe (record provisioned { interfaces = one_interface ∷ [] })

abbrev broken : Hardware
broken = hardware_named "broken" [] []

patched_first : patch_all small_kube set_allow_pxe (provisioned ∷ []) [] ≡ (ok tt, "node-1" ∷ [])
unfolding patch_all patch_hardware set_allow_pxe ◌>>=◌
patched_first = refl

abbrev refusal : Error
refusal = error "cannot patch Hardware default/broken: no answer"

refused_second :
    patch_hardware small_kube set_allow_pxe broken ("node-1" ∷ []) ≡ (err refusal, "node-1" ∷ [])
unfolding patch_hardware ◌>>=◌
refused_second = refl

patch_all-stops_example :
    patch_all small_kube set_allow_pxe (provisioned ∷ broken ∷ unlabelled ∷ []) [] ≡ (
      err (
          error "failed to patch Hardware broken: cannot patch Hardware default/broken: no answer"),
      "node-1" ∷ [],
    )
patch_all-stops_example =
    patch_all-stops small_kube set_allow_pxe (provisioned ∷ []) broken (unlabelled ∷ []) []
      ("node-1" ∷ []) ("node-1" ∷ []) refusal patched_first refused_second

abbrev in_clusters : DeviceFilters
in_clusters = record {
  regions = [];
  sites = "paris" ∷ [];
  locations = [];
  racks = [];
  tenants = [];
  roles = [];
  virtualisation = false;
  clusters = "prod" ∷ [];
  status = "active" ∷ [];
}

good-injective : {A : Type 0} {a b : A} → good a ≡ good b → a ≡ b
good-injective h = cc h

small_kube-KeepsLabels : KeepsLabels small_kube
small_kube-KeepsLabels old new answer s h = go (old.name == "broken") h
  where
    go :
        (b : Bool)
        → (if◌then◌else◌ {A = Reply Hardware × List String} b
            (bad (error "no answer"), s)
            (good new, new.name ∷ s)).0
          ≡ good answer
        → answer.labels ≡ new.labels
    go true e = absurd (cc e)
    go false e = ap (λ (h : Hardware). h.labels) (sym (good-injective e))

abbrev with_new_labels : Hardware
with_new_labels = hardware_named "node-1" new_labels []

abbrev with_old_labels : Hardware
with_old_labels =
    hardware_named "node-1" old_labels (("v1alpha1.tinkerbell.org/provisioned", "true") ∷ [])

abbrev with_merged_labels : Hardware
with_merged_labels =
    hardware_named "node-1" (("site", "paris") ∷ ("owner", "ops") ∷ ("role", "worker") ∷ [])
      (("v1alpha1.tinkerbell.org/provisioned", "true") ∷ [])

relabelled :
    (patch_labels small_netbox small_kube with_old_labels with_new_labels []).0
    ≡ ok with_merged_labels
unfolding patch_labels merge_labels wrap tell
relabelled = refl

patch_labels-get_text_example : get_text with_merged_labels.labels "owner" ≡ "ops"
patch_labels-get_text_example =
    patch_labels-get_text small_netbox small_kube with_old_labels with_new_labels with_merged_labels
      [] "owner" small_kube-KeepsLabels relabelled

activate_device-labels_of_example :
    (activate_device small_netbox small_kube with_old_labels provisioned store).1
    ≡ (set_device_status small_netbox 42 "active" store).1
activate_device-labels_of_example =
    activate_device-labels_of small_netbox small_kube with_old_labels provisioned first_device "S1"
      store (omega arith) refl refl
