-- ===== src/NetboxUpdater/Devices/Moves.antt =====
-- hardware_reconciler.go: how a run of the reconciler moves NetBox.
use machinecfg.Prelude.{ℕ, String, Option, none, some, Bool, true, false, string_eq}
use machinecfg.Effect.{Exec, Reply, good, bad, Error, ErrorKind}
use machinecfg.Effect.Moves.{Moves, Preorder, anyhow, both, reads, Moves-tell, Moves-on_right}
use machinecfg.Netbox.{Netbox}
use machinecfg.Kube.{Kube}
use machinecfg.Tinkerbell.Status.{set_device_status}
use machinecfg.Tinkerbell.Status.Settles.Run.{set_device_status-Moves}
use machinecfg.NetboxUpdater.Devices.{
  record_event, report, update_device, get_failed, update_hardware, reconcile_hardware,
}

module _ (N : Netbox) (K : Kube) (P : Preorder N.State)
    (writes : (id : ℕ) (target : String) (s : N.State)
      → P.rel s (N.devices_set_status id target s).1) where
  abbrev Goes : {A : Type 0} → Exec (N.State × K.State) A → Type 0
  Goes m = Moves (both P anyhow) m

  told : (s : K.State) → Unit {0}
  told s = tt

  record_event-Moves : (type reason message : String) → Goes (record_event N K type reason message)
  record_event-Moves type reason message = Moves-on_right P anyhow _ (Moves-tell _ told)

  report-Moves : (id : ℕ) (target : String) (r : Reply Bool) → Goes (report N K id target r)
  report-Moves id target (bad e) = search (reads, record_event-Moves) depth 12
  report-Moves id target (good true) = search (reads, record_event-Moves) depth 12
  report-Moves id target (good false) = search reads depth 4

  status-Moves : (id : ℕ) (target : String) → Moves P (set_device_status N id target)
  status-Moves id target = set_device_status-Moves N P id target (writes id)

  update_device-Moves : (target : String) (id : Reply ℕ) → Goes (update_device N K target id)
  update_device-Moves target (bad e) = search reads depth 4
  update_device-Moves target (good id) = search (reads, status-Moves, report-Moves) depth 12

  module _ (namespace name : String) where
    get_failed-Moves : (kind : ErrorKind) (e : Error) → Goes (get_failed N K namespace name kind e)
    get_failed-Moves ErrorKind.not_found e = search reads depth 4
    get_failed-Moves ErrorKind.already_exists e = search reads depth 4
    get_failed-Moves ErrorKind.other e = search reads depth 4

    update_hardware-Moves : (hw : Reply K.Object) → Goes (update_hardware N K namespace name hw)
    update_hardware-Moves (bad e) = get_failed-Moves e.kind e
    update_hardware-Moves (good hw) = update_device-Moves _ _

    pub reconcile_hardware-Moves :
        {Client : Type 0} (client : Option Client)
        → Moves (both P anyhow) (reconcile_hardware N K client namespace name)
    unfolding reconcile_hardware
    reconcile_hardware-Moves none = search reads depth 4
    reconcile_hardware-Moves (some client) = search (reads, update_hardware-Moves) depth 12
