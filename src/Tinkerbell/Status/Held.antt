-- ===== src/Tinkerbell/Status/Held.antt =====
-- What it means that an object has the status that it asks for, on a NetBox that keeps statuses.
use machinecfg.Prelude.{
  ℕ, String, ◌≡◌, ◌≢◌, false, Option, none, some, List, [], ◌∷◌, lookup, All, ◌==◌, string_eq,
}
use machinecfg.Effect.{Reply, good, bad, Error}
use machinecfg.Text.{parse_int32}
use machinecfg.Netbox.{Netbox, Device}
use machinecfg.Kube.{Hardware}
use machinecfg.Tinkerbell.Names.{annotation_provisioned, label_netbox_device_id}
use machinecfg.Tinkerbell.Status.{SyncStatusResult, target_of_annotation}

-- What NetBox documents of a change of status: the device has it afterwards, other devices are left
-- alone, and a refusal has a text.
pub record SetsStatuses (N : Netbox) : Type 0 where
  pub changed :
      (id : ℕ) (target : String) (s : N.State) {patched : Device}
      → (N.devices_set_status id target s).0 ≡ good patched
      → (device : Device) × (N.devices_retrieve id (N.devices_set_status id target s).1
          ≡ good device)
        × (device.status_value ≡ target)
  pub others :
      (id other : ℕ) (target : String) (s : N.State)
      → other ≢ id
      → N.devices_retrieve other (N.devices_set_status id target s).1 ≡ N.devices_retrieve other s
  pub explained :
      (id : ℕ) (target : String) (s : N.State) {e : Error}
      → (N.devices_set_status id target s).0 ≡ bad e
      → e.text ≢ ""

-- Two objects are not of the same device.
abbrev pub AreApart : Hardware → Hardware → Type 0
AreApart hw other =
    (text text' : String) (id : ℕ)
    → lookup label_netbox_device_id hw.labels ≡ some text
    → lookup label_netbox_device_id other.labels ≡ some text'
    → parse_int32 text ≡ good id
    → parse_int32 text' ≢ good id

abbrev pub AllApart : List Hardware → Type 0
AllApart [] = Unit
AllApart (hw ∷ hws) = All (AreApart hw) hws × AllApart hws

abbrev pub IsClean : SyncStatusResult → Type 0
IsClean r = r.error ≡ ""

abbrev pub IsQuiet : SyncStatusResult → Type 0
IsQuiet r = (r.updated ≡ false) × (r.error ≡ "")

module _ (N : Netbox) where
  abbrev pub HasStatus : ℕ → String → N.State → Type 0
  HasStatus id target s =
      (device : Device) × (N.devices_retrieve id s ≡ good device) × (device.status_value ≡ target)

  -- What an object asks for holds.
  abbrev pub HeldBy : String → Reply ℕ → N.State → Type 0
  HeldBy target (good id) s = HasStatus id target s
  HeldBy target (bad e) s = ⊥

  abbrev pub HeldUnder : String → Option String → N.State → Type 0
  HeldUnder target none s = ⊥
  HeldUnder target (some text) s = ((text == "") ≡ false) × HeldBy target (parse_int32 text) s

  abbrev pub HeldFor : Hardware → Option String → N.State → Type 0
  HeldFor hw none s = Unit
  HeldFor hw (some target) s = HeldUnder target (lookup label_netbox_device_id hw.labels) s

  abbrev pub Holds : N.State → Hardware → Type 0
  Holds s hw = HeldFor hw (target_of_annotation (lookup annotation_provisioned hw.annotations)) s
