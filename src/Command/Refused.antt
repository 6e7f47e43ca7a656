-- ===== src/Command/Refused.antt =====
-- Commands without a namespace or without a Kubernetes client.
use machinecfg.Prelude.{
  String, ◌≡◌, refl, none, some, ◌⊎◌, inl, inr, List, [], ◌∷◌, Option-cases, false,
}
use machinecfg.Effect.{Exec, err, Error, Reply, bad, ◌>>=◌}
use machinecfg.Netbox.{Netbox}
use machinecfg.Kube.{Kube}
use machinecfg.Cluster.Sync.Steps.{SyncStatusResult}
use machinecfg.Tinkerbell.Status
use machinecfg.Tinkerbell.Patches.{allow_pxe, clean_user_data, clean_vendor_data}
use machinecfg.Command.Arguments.{Environment, get_namespace, process_root_args}
use machinecfg.Command.Run.{CommandFlags}
use machinecfg.Command.Machines.{
  pxe_allow, clean_userdata, clean_vendordata, run_change, hardware_sync_status,
}
use machinecfg.Command.Clusters.{cluster_sync_status}

-- The action ends in an error, and writes nothing.
abbrev pub Refuses : {S A : Type 0} → Exec S A → S → Type 0
Refuses m s = (e : Error) × (m s ≡ (err e, s))

-- No namespace is given, or there is no Kubernetes client.
abbrev pub HasNoTarget : {Client : Type 0} → (String → Reply Client) → CommandFlags → Type 0
HasNoTarget connect flags =
    (get_namespace flags.root ≡ none)
    ⊎ ((e : Error) × (namespace : String) × (get_namespace flags.root ≡ some namespace)
        × (connect flags.kubeconfig ≡ bad e))

module _ {Client : Type 0} (connect : String → Reply Client) (flags : CommandFlags)
    (no_target : HasNoTarget connect flags) where
  run_change-Refuses :
      (K : Kube) (change : String → String → Exec K.State (Unit {0})) (message : String)
      (s : K.State)
      → Refuses (run_change K connect change message flags) s
  unfolding ◌>>=◌
  run_change-Refuses K change message s = elim no_target [
    | inl nowhere ↦ rw nowhere (_, refl)
    | inr (e, namespace, named, failed) ↦ rw (named, failed) (_, refl)
  ]

  module _ (N : Netbox) (K : Kube) (env : Environment) where
    hardware_sync_status-Refuses :
        (marshal : List Status.SyncStatusResult → Reply String) (w : N.State × K.State)
        → Refuses (hardware_sync_status N K connect marshal env flags) w
    unfolding hardware_sync_status ◌>>=◌
    hardware_sync_status-Refuses marshal w =
        elim (Option-cases (process_root_args flags.root env false [])) [
          | inl exits ↦ rw exits (_, refl)
          | inr (args, accepted) ↦ elim no_target [
            | inl nowhere ↦ rw (accepted, nowhere) (_, refl)
            | inr (e, namespace, named, failed) ↦ rw (accepted, named, failed) (_, refl)
          ]
        ]

    cluster_sync_status-Refuses :
        (unmarshal : String → Reply (List String)) (marshal : List SyncStatusResult → Reply String)
        (w : N.State × K.State)
        → Refuses (cluster_sync_status N K unmarshal connect env flags marshal) w
    unfolding cluster_sync_status ◌>>=◌
    cluster_sync_status-Refuses unmarshal marshal w =
        elim (Option-cases (process_root_args flags.root env false (false ∷ []))) [
          | inl exits ↦ rw exits (_, refl)
          | inr (args, accepted) ↦ elim no_target [
            | inl nowhere ↦ rw (accepted, nowhere) (_, refl)
            | inr (e, namespace, named, failed) ↦ rw (accepted, named, failed) (_, refl)
          ]
        ]

    -- Without a namespace, or without a Kubernetes client, the commands `pxe-allow`,
    -- `clean-userdata`, `clean-vendordata`, `hardware sync-status` and `cluster sync-status` end in
    -- an error, whatever their other flags, and leave NetBox and Kubernetes as they were.
    pub commands-Refuse :
        (unmarshal : String → Reply (List String))
        (hardware_json : List Status.SyncStatusResult → Reply String)
        (cluster_json : List SyncStatusResult → Reply String) (w : N.State × K.State)
        → Refuses (pxe_allow K connect flags) w.1
          × Refuses (clean_userdata K connect flags) w.1
          × Refuses (clean_vendordata K connect flags) w.1
          × Refuses (hardware_sync_status N K connect hardware_json env flags) w
          × Refuses (cluster_sync_status N K unmarshal connect env flags cluster_json) w
    unfolding pxe_allow clean_userdata clean_vendordata
    commands-Refuse unmarshal hardware_json cluster_json w = (
      run_change-Refuses K (allow_pxe K) "failed to set AllowPXE" w.1,
      run_change-Refuses K (clean_user_data K) "failed to clean userData" w.1,
      run_change-Refuses K (clean_vendor_data K) "failed to clean vendorData" w.1,
      hardware_sync_status-Refuses hardware_json w,
      cluster_sync_status-Refuses unmarshal cluster_json w,
    )
