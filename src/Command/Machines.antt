-- ===== src/Command/Machines.antt =====
-- hardware_pxe.go, hardware_clean.go and hardware_sync_status.go: the commands on the Hardware
-- objects of a namespace. `connect` stands for `getK8sClient`, `marshal` for `json.Marshal`.
use machinecfg.Prelude.{String, List, [], ◌∷◌, map, false, string_eq}
use machinecfg.Effect.{Exec, Reply, pure, wrap, ◌>>=◌}
use machinecfg.Text.{itoa}
use machinecfg.Netbox.{Netbox}
use machinecfg.Kube.{Kube}
use machinecfg.Tinkerbell.Patches.{allow_pxe, clean_user_data, clean_vendor_data}
use machinecfg.Tinkerbell.Status.{SyncStatusResult, sync_status}
use machinecfg.Command.Arguments.{Environment, process_root_args, get_namespace}
use machinecfg.Command.Run.{CommandFlags, or_exit, or_fatal, printed, bool_text, line}

module _ {Client : Type 0} (K : Kube) (connect : String → Reply Client) where
  -- The commands that change one object or all objects, alike but for the change and its message.
  abbrev pub run_change :
      (String → String → Exec K.State (Unit {0})) → String → CommandFlags → Exec K.State (Unit {0})
  run_change change message flags = do
    namespace ← or_exit (get_namespace flags.root)
    client ← or_fatal "no k8s configuration found" (connect flags.kubeconfig)
    wrap (λ t. message) (change namespace flags.hostname)

  unfoldable pub pxe_allow : CommandFlags → Exec K.State (Unit {0})
  unfolding allow_pxe get_namespace
  pxe_allow flags = run_change (allow_pxe K) "failed to set AllowPXE" flags

  -- It only connects.
  unfoldable pub pxe_deny : CommandFlags → Exec K.State (Unit {0})
  pxe_deny flags = do
    client ← or_fatal "no k8s configuration found" (connect flags.kubeconfig)
    pure tt

  unfoldable pub clean_userdata : CommandFlags → Exec K.State (Unit {0})
  unfolding clean_user_data get_namespace
  clean_userdata flags = run_change (clean_user_data K) "failed to clean userData" flags

  unfoldable pub clean_vendordata : CommandFlags → Exec K.State (Unit {0})
  unfolding clean_vendor_data get_namespace
  clean_vendordata flags = run_change (clean_vendor_data K) "failed to clean vendorData" flags

-- The rows of the table of `sync-status`.
abbrev pub status_line : SyncStatusResult → String
status_line r = line (r.hostname ∷ itoa r.device_id ∷ bool_text r.updated ∷ r.error ∷ [])

abbrev pub status_table : List SyncStatusResult → List String
status_table results =
    line ("HOSTNAME" ∷ "DEVICE-ID" ∷ "UPDATED" ∷ "ERROR" ∷ []) ∷ map status_line results

module _ {Client : Type 0} (N : Netbox) (K : Kube) (connect : String → Reply Client)
    (marshal : List SyncStatusResult → Reply String) where
  unfoldable pub hardware_sync_status :
      Environment → CommandFlags → Exec (N.State × K.State) (List String)
  unfolding sync_status process_root_args get_namespace
  hardware_sync_status env flags = do
    args ← or_exit (process_root_args flags.root env false [])
    namespace ← or_exit (get_namespace flags.root)
    client ← or_fatal "no k8s configuration found" (connect flags.kubeconfig)
    results ← wrap (λ t. "failed to sync status") (sync_status N K namespace)
    printed flags.output (marshal results) (status_table results)
