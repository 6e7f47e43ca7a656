-- ===== src/Examples/Controllers.antt =====
-- The theorems on the two controllers, on the small NetBox and the small Kubernetes.
use machinecfg.Prelude.{
  ℕ, ◌<◌, String, ◌≡◌, ◌≢◌, List, ◌+◌, refl, ◌⊎◌, none, some, [], ◌∷◌, Dict, arith,
}
use machinecfg.Effect.{Outcome, panic, Reply, good, ok, err, Error, ErrorKind}
use machinecfg.Kube.{Hardware}
use machinecfg.Tinkerbell.Names.{annotation_provisioned}
use machinecfg.Tinkerbell.Hardware.Labels.{labels_of}
use machinecfg.Tinkerbell.Status.{target_of_annotation}
use machinecfg.NetboxUpdater.Devices.{target_netbox_status, device_id_from_labels}
use machinecfg.NetboxUpdater.Devices.Laws.{
  target_netbox_status-agrees, device_id_from_labels-labels_of,
}
use machinecfg.KubernetesUpdater.Config.{
  Config, new_config, get_backend, get_sync_interval, apply_config_map_and_secret, reconcile_config,
}
use machinecfg.KubernetesUpdater.Config.Laws.{
  Settles, reconcile_config-Settles, reconcile_config-keeps-client, PollsAt, apply-interval,
}
use machinecfg.KubernetesUpdater.Sync.{apply_hardware, prune_hardware, count_failures, reconcile}
use machinecfg.KubernetesUpdater.Sync.Laws.{missing_hardware-Answers}
use machinecfg.KubernetesUpdater.Sync.Rounds.{Tried, Ends, count_failures-apply, reconcile-Requeues}
use machinecfg.Effect.{◌>>=◌}
use machinecfg.Common.{
  get_devices, get_tagged_addresses_from_prefix_of_addr, get_system_disk_inventory_items,
}
use machinecfg.Net.{parse_cidr_mask}
use machinecfg.Tinkerbell.Hardware.Labels.{create_meta_from_device}
use machinecfg.Tinkerbell.Hardware.{
  create_hardwares, create_hardwares_to_prune, hardwares_of_devices, hardwares_to_prune,
  extract_hardware_data, hardware_of_device, primary_mac, get_mac_addr_from_iface_id, tagged_texts,
  cidr_to_netmask, system_disks, embed_ignition,
}
use machinecfg.Examples.Devices.{listing, no_filters}
use machinecfg.Examples.{
  Store, small_netbox, small_kube, store, first_device, hardware_named, no_ignition,
}

abbrev client_for : String → String → String
client_for endpoint token = token

abbrev half_minute : String → Reply ℕ
half_minute s = good 30_000_000_000

abbrev configured : Config String
configured = record new_config { netbox_client = some "old" }

reconcile_config-Settles_example :
    Settles client_for half_minute small_kube "default"
      (configured, [])
      (reconcile_config client_for half_minute small_kube "default" (configured, [])).1
reconcile_config-Settles_example =
    reconcile_config-Settles client_for half_minute small_kube "default" (configured, [])

reconcile_config-keeps-client_example :
    (new : String) × ((reconcile_config client_for half_minute small_kube "default"
        (configured, [])).1.0.netbox_client
      ≡ some new)
reconcile_config-keeps-client_example =
    reconcile_config-keeps-client client_for half_minute small_kube "default" configured [] "old"
      refl

apply-interval_example : PollsAt client_for half_minute "30s" (
    get_sync_interval (
      apply_config_map_and_secret client_for half_minute configured
        (("sync_interval", "30s") ∷ [])
        []))
apply-interval_example =
    apply-interval client_for half_minute configured (("sync_interval", "30s") ∷ []) []

abbrev new_hardware : Hardware
new_hardware = hardware_named "node-1" (labels_of first_device "S1") []

abbrev not_found : Error
not_found = record { kind = ErrorKind.not_found; text = "not found" }

missing_hardware-Answers_example :
    (((not_found.kind ≡ ErrorKind.not_found)
        × ((apply_hardware small_netbox small_kube no_ignition no_ignition new_hardware
              (store, [])).1
            ≡ (store, "node-1" ∷ [])))
      ⊎ ((not_found.kind ≢ ErrorKind.not_found)
          × ((apply_hardware small_netbox small_kube no_ignition no_ignition new_hardware
                (store, [])).1
              ≡ (store, []))
          × ((e : Error) × ((apply_hardware small_netbox small_kube no_ignition no_ignition
                  new_hardware
                  (store, [])).0
                ≡ err e)
              × (e.kind ≡ not_found.kind))))
    × ((prune_hardware small_netbox small_kube no_ignition no_ignition "default" new_hardware
          (store, [])).1
        ≡ (store, []))
missing_hardware-Answers_example =
    missing_hardware-Answers small_netbox small_kube no_ignition no_ignition "default" new_hardware
      (store, []) not_found refl

abbrev two_objects : List Hardware
two_objects = new_hardware ∷ hardware_named "node-2" [] [] ∷ []

count_failures-apply_example :
    (n : ℕ) × (after : Store × List String) × (count_failures small_netbox small_kube no_ignition
        no_ignition
        (apply_hardware small_netbox small_kube no_ignition no_ignition)
        two_objects
        (store, [])
      ≡ (ok n, after))
    × Tried
        (apply_hardware small_netbox small_kube no_ignition no_ignition)
        (store, [])
        two_objects
        n
        after
count_failures-apply_example =
    count_failures-apply small_netbox small_kube no_ignition no_ignition two_objects (store, [])

abbrev connected : Config String
connected = record configured { device_filters = no_filters }

-- What NetBox gives for the staged devices, and for the offline and planned ones.
abbrev objects : Outcome (List Hardware) → List Hardware
objects (ok hws) = hws
objects (err e) = []
objects panic = []

abbrev listed_objects : List Hardware
listed_objects = objects (create_hardwares listing no_ignition no_ignition no_filters none tt).0

listed_staged :
    create_hardwares listing no_ignition no_ignition no_filters none tt ≡ (ok listed_objects, tt)
unfolding create_hardwares ◌>>=◌ get_devices hardwares_of_devices extract_hardware_data
    hardware_of_device primary_mac get_mac_addr_from_iface_id tagged_texts
    get_tagged_addresses_from_prefix_of_addr cidr_to_netmask parse_cidr_mask create_meta_from_device
    system_disks get_system_disk_inventory_items embed_ignition
listed_staged = refl

abbrev gone_objects : List Hardware
gone_objects = objects (create_hardwares_to_prune listing no_filters tt).0

listed_gone : create_hardwares_to_prune listing no_filters tt ≡ (ok gone_objects, tt)
unfolding create_hardwares_to_prune ◌>>=◌ get_devices hardwares_to_prune extract_hardware_data
    hardware_of_device primary_mac get_mac_addr_from_iface_id tagged_texts
    get_tagged_addresses_from_prefix_of_addr cidr_to_netmask parse_cidr_mask create_meta_from_device
    system_disks get_system_disk_inventory_items
listed_gone = refl

reconcile-Requeues_example :
    (applied_failures : ℕ) × (pruned_failures : ℕ) × (applied : Unit {0} × List String) × Tried
      (apply_hardware listing small_kube no_ignition no_ignition)
      (tt, [])
      listed_objects
      applied_failures
      applied
    × Tried
        (prune_hardware listing small_kube no_ignition no_ignition "default")
        applied
        gone_objects
        pruned_failures
        (reconcile listing small_kube no_ignition no_ignition "default" connected (tt, [])).1
    × Ends listing small_kube no_ignition no_ignition
        (applied_failures + pruned_failures)
        (get_sync_interval connected)
        (reconcile listing small_kube no_ignition no_ignition "default" connected (tt, [])).0
    × (0 < get_sync_interval connected)
unfolding get_backend
reconcile-Requeues_example =
    reconcile-Requeues listing small_kube no_ignition no_ignition "default" connected "old" (tt, [])
      listed_objects gone_objects refl refl listed_staged listed_gone

abbrev failed_annotation : Dict String
failed_annotation = (annotation_provisioned, "failed") ∷ []

target_netbox_status-agrees_example :
    (target_of_annotation (some "failed") ≡ some (target_netbox_status failed_annotation))
    ⊎ ((target_of_annotation (some "failed") ≡ none)
        × (target_netbox_status failed_annotation ≡ "staged"))
target_netbox_status-agrees_example = target_netbox_status-agrees failed_annotation

device_id_from_labels-labels_of_example :
    device_id_from_labels (labels_of first_device "S1") ≡ good 42
device_id_from_labels-labels_of_example =
    device_id_from_labels-labels_of first_device "S1" (omega arith)
