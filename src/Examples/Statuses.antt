-- ===== src/Examples/Statuses.antt =====
-- The theorem on the statuses of devices, on a NetBox that keeps a status for each device.
use machinecfg.Prelude.{
  ℕ, String, ◌≡◌, ◌≢◌, refl, ap, sym, ◌∙◌, true, some, List, [], ◌∷◌, ◌==◌, nat_eq, string_eq,
  if◌then◌else◌, All, arith, Bool-cases, inl, inr, sym,
}
use machinecfg.Text.Decimal.{parse_int32-itoa}
use machinecfg.Text.{itoa, print_digits, digit, parse_int32}
use machinecfg.Effect.{good, ok, ◌>>=◌}
use machinecfg.Netbox.{Netbox, Device}
use machinecfg.Kube.{Hardware}
use machinecfg.Tinkerbell.Hardware.Labels.{labels_of}
use machinecfg.Tinkerbell.Status.{
  SyncStatusResult, set_device_status, sync_hardware, sync_hardwares, unnamed,
}
use machinecfg.Tinkerbell.Status.Held.{SetsStatuses, Holds, IsQuiet}
use machinecfg.Tinkerbell.Status.Settles.Run.{sync_hardwares-Settles}
use machinecfg.Examples.{good≢bad, silent_netbox, first_device, hardware_named}

abbrev device_with : ℕ → String → Device
device_with id status = record first_device { id = id; status_value = status }

abbrev set_at : ℕ → String → (ℕ → String) → ℕ → String
set_at id target s other = if other == id then target else s other

-- The state gives the status of each device.
abbrev status_netbox : Netbox
status_netbox = record (silent_netbox (ℕ → String)) {
  devices_retrieve = λ id s. good (device_with id (s id));
  devices_set_status = λ id target s. (good (device_with id target), set_at id target s);
}

set_at-same : (id : ℕ) (target : String) (s : ℕ → String) → set_at id target s id ≡ target
set_at-same id target s = let same : (id == id) ≡ true = ground arith in rw same

set_at-other :
    (id other : ℕ) (target : String) (s : ℕ → String)
    → other ≢ id
    → set_at id target s other ≡ s other
set_at-other id other target s apart = elim (Bool-cases (other == id)) [
  | inl same ↦ absurd (apart (ground (arith, same)))
  | inr differs ↦ rw differs
]

status_netbox-SetsStatuses : SetsStatuses status_netbox
status_netbox-SetsStatuses = record {
  changed = λ id target s done. (_, refl, set_at-same id target s);
  others = λ id other target s apart.
      ap (λ status. good (device_with other status)) (set_at-other id other target s apart);
  explained = λ id target s refused. absurd (good≢bad refused);
}

-- Two machines of different devices, the second not provisioned, and one that failed.
abbrev machines : List Hardware
machines =
    hardware_named "node-1" (labels_of (device_with 41 "staged") "S1")
      (("v1alpha1.tinkerbell.org/provisioned", "true") ∷ [])
    ∷ hardware_named "node-2" (labels_of (device_with 42 "staged") "S2") []
    ∷ []

good-injective : {A : Type 0} {a b : A} → good a ≡ good b → a ≡ b
good-injective h = cc h

some-injective : {A : Type 0} {a b : A} → some a ≡ some b → a ≡ b
some-injective h = cc h

parsed :
    (literal text : String) (n id : ℕ)
    → parse_int32 literal ≡ good n
    → some literal ≡ some text
    → parse_int32 text ≡ good id
    → n ≡ id
parsed literal text n id h k p = good-injective (sym h ∙ ap parse_int32 (some-injective k) ∙ p)

apart :
    (text text' : String) (id : ℕ)
    → some (itoa 41) ≡ some text
    → some (itoa 42) ≡ some text'
    → parse_int32 text ≡ good id
    → parse_int32 text' ≢ good id
apart text text' id h k p q = omega (
  arith,
  parsed (itoa 41) text 41 id (parse_int32-itoa 41 (omega arith)) h p,
  parsed (itoa 42) text' 42 id (parse_int32-itoa 42 (omega arith)) k q,
)

abbrev all_active : ℕ → String
all_active id = "active"

abbrev first_results : List SyncStatusResult
first_results =
    record (unnamed "node-1") { device_id = 41 }
    ∷ record (unnamed "node-2") { device_id = 42; updated = true }
    ∷ []

ran : (sync_hardwares status_netbox machines all_active).0 ≡ ok first_results
unfolding sync_hardwares sync_hardware set_device_status itoa parse_int32 print_digits digit ◌>>=◌
ran = refl

abbrev all_synced : ℕ → String
all_synced = (sync_hardwares status_netbox machines all_active).1

sync_hardwares-Settles_example :
    All (Holds status_netbox all_synced) machines
    × ((again : List SyncStatusResult) × (sync_hardwares status_netbox machines all_synced
          ≡ (ok again, all_synced))
        × All IsQuiet again)
sync_hardwares-Settles_example =
    sync_hardwares-Settles status_netbox status_netbox-SetsStatuses machines all_active
      (((apart, tt), (tt, tt))) ran (refl, (refl, tt))
