-- ===== src/Tinkerbell/Status/Laws.antt =====
-- The annotation of a Hardware object against the status of its device in NetBox.
use machinecfg.Prelude.{
  ℕ, ◌<◌, String, ◌≡◌, refl, ◌≢◌, ◌∙◌, ap, ap₂, subst, sym, Bool, true, false, Option, none, some,
  List, [], ◌∷◌, ◌++◌, map, keep, lookup, Bool-cases, inl, inr, ◌==◌, string_eq, if◌then◌else◌,
  eq_iff,
}
use mathlib.Core.List.{map-append}
use machinecfg.Effect.{
  Reply, good, bad, ok, err, Error, pure, attempt, Reply-cases, bind_assoc, ◌>>=◌,
}
use machinecfg.Effect.Meets.{
  anything, Meets, Meets-pure, Meets-if, Meets-attempt, Meets-bind, Meets-wrap, Meets-returns,
  Meets-ask, Meets-tell, Anything,
}
use machinecfg.Text.{itoa, parse_int32, int32_mod}
use machinecfg.Text.Decimal.{parse_int32-itoa, itoa-NonEmpty}
use machinecfg.Netbox.{Netbox, Device}
use machinecfg.Kube.{Hardware}
use machinecfg.Tinkerbell.Names.{annotation_provisioned, label_netbox_device_id}
use machinecfg.Tinkerbell.Hardware.Labels.{labels_of}
use machinecfg.Tinkerbell.Status.{
  SyncStatusResult, set_device_status, target_of_annotation, with_status, update_device,
  update_labelled, update_if_target, sync_hardware, sync_hardwares,
}

-- A list with one result, which names the object.
abbrev Names : String → List SyncStatusResult → Type 0
Names hostname rs = map (λ r. r.hostname) rs ≡ hostname ∷ []

-- An object whose annotation asks for a status: a missing one, or "true".
abbrev pub is_handled : Hardware → Bool
is_handled hw = elim (target_of_annotation (lookup annotation_provisioned hw.annotations)) [
  | none ↦ false
  | some target ↦ true
]

module _ (N : Netbox) where
  pub set_device_status-Meets :
      (device_id : ℕ) (target : String) → Meets Unit Anything (set_device_status N device_id target)
  unfolding set_device_status
  set_device_status-Meets device_id target =
      Meets-bind _ _ (Meets-wrap _ _ (Meets-ask _ (λ s. anything _))) λ device _.
        Meets-if (device.status_value == target) _ _ (λ e. Meets-pure _ tt)
          (λ e. Meets-bind _ _ (Meets-tell _ (λ s. anything _)) λ d _. Meets-pure _ tt)

  update_device-Meets :
      (hostname text target : String) (id : Reply ℕ)
      → Meets ⊥ (λ r. r.hostname ≡ hostname) (update_device N hostname text target id)
  update_device-Meets hostname text target (bad e) = Meets-pure _ refl
  update_device-Meets hostname text target (good device_id) =
      Meets-bind _ _ (Meets-attempt ⊥ _ (set_device_status-Meets device_id target))
        λ r _. Meets-pure _ (named r)
    where
      named : (r : Reply Bool) → (with_status hostname device_id r).hostname ≡ hostname
      named (good b) = refl
      named (bad e) = refl

  update_labelled-Meets :
      (hostname target : String) (label : Option String)
      → Meets ⊥ (λ r. r.hostname ≡ hostname) (update_labelled N hostname target label)
  update_labelled-Meets hostname target none = Meets-pure _ refl
  update_labelled-Meets hostname target (some id) =
      Meets-if (id == "") _ _ (λ e. Meets-pure _ refl)
        (λ e. update_device-Meets hostname id target (parse_int32 id))

  abbrev expected : Hardware → Option String → List String
  expected hw none = []
  expected hw (some target) = hw.name ∷ []

  update_if_target-Meets :
      (hw : Hardware) (target : Option String)
      → Meets ⊥ (λ rs. map (λ r. r.hostname) rs ≡ expected hw target) (update_if_target N hw target)
  update_if_target-Meets hw none = Meets-pure _ refl
  update_if_target-Meets hw (some target) =
      Meets-bind _ _
        (update_labelled-Meets hw.name target (lookup label_netbox_device_id hw.labels))
        λ r h. Meets-pure _ (ap (λ n. n ∷ []) h)

  handled_names : List Hardware → List String
  handled_names hws = map (λ hw. hw.name) (keep is_handled hws)

  handled_names-cons :
      (hw : Hardware) (hws : List Hardware)
      → handled_names (hw ∷ hws)
        ≡ expected hw (target_of_annotation (lookup annotation_provisioned hw.annotations))
          ++ handled_names hws
  unfolding handled_names
  handled_names-cons hw hws =
      go (target_of_annotation (lookup annotation_provisioned hw.annotations))
    where
      go :
          (t : Option String)
          → map
              (λ (hw : Hardware). hw.name)
              (if (elim t [ none ↦ false | some target ↦ true ])
                then hw ∷ keep is_handled hws
                else keep is_handled hws)
            ≡ expected hw t ++ map (λ hw. hw.name) (keep is_handled hws)
      go none = refl
      go (some t) = refl

  sync_hardwares-Meets :
      (hws : List Hardware)
      → Meets ⊥
          (λ rs. map (λ r. r.hostname) rs ≡ map (λ hw. hw.name) (keep is_handled hws))
          (sync_hardwares N hws)
  unfolding sync_hardwares sync_hardware handled_names
  sync_hardwares-Meets [] = Meets-pure _ refl
  sync_hardwares-Meets (hw ∷ hws) = Meets-bind _ _ (update_if_target-Meets hw _) λ rs h.
      Meets-bind _ _ (sync_hardwares-Meets hws) λ rest k.
        Meets-pure _
          (map-append _ rs rest ∙ ap₂ (λ xs ys. xs ++ ys) h k ∙ sym (handled_names-cons hw hws))

  -- Whatever NetBox answers, the loop over the Hardware objects returns: with exactly one result
  -- for each object whose annotation is missing or "true", in their order, and none for others.
  pub sync_hardwares-reports :
      (hws : List Hardware) (s : N.State)
      → (rs : List SyncStatusResult) × ((sync_hardwares N hws s).0 ≡ ok rs)
        × (map (λ r. r.hostname) rs ≡ map (λ hw. hw.name) (keep is_handled hws))
  sync_hardwares-reports hws s = Meets-returns _ (sync_hardwares-Meets hws) s

-- What NetBox documents of a change of status: the device has it afterwards.
abbrev pub SetsStatus : Netbox → Type 0
SetsStatus N =
    (device_id : ℕ) (target : String) (s : N.State) (patched : Device)
    → (N.devices_set_status device_id target s).0 ≡ good patched
    → (device : Device) × (N.devices_retrieve device_id (N.devices_set_status device_id target s).1
        ≡ good device)
      × (device.status_value ≡ target)

ok≢err : {A : Type 0} {a : A} {e : Error} → ok a ≢ err e
ok≢err h = cc h

module _ (N : Netbox) where
  module _ (device_id : ℕ) (target : String) where
    already :
        (s : N.State) (device : Device)
        → N.devices_retrieve device_id s ≡ good device
        → (device.status_value == target) ≡ true
        → set_device_status N device_id target s ≡ (ok false, s)
    unfolding set_device_status ◌>>=◌
    already s device found same = rw (found, same)

    unknown :
        (s : N.State) (e : Error)
        → N.devices_retrieve device_id s ≡ bad e
        → (e' : Error) × ((set_device_status N device_id target s).0 ≡ err e')
    unfolding set_device_status ◌>>=◌
    unknown s e failed = rw failed (_, refl)

    refused :
        (s : N.State) (device : Device) (e : Error)
        → N.devices_retrieve device_id s ≡ good device
        → (device.status_value == target) ≡ false
        → (N.devices_set_status device_id target s).0 ≡ bad e
        → (set_device_status N device_id target s).0 ≡ err e
    unfolding set_device_status ◌>>=◌
    refused s device e found differs failed = rw (found, differs, failed)

    written :
        (s : N.State) (device patched : Device)
        → N.devices_retrieve device_id s ≡ good device
        → (device.status_value == target) ≡ false
        → (N.devices_set_status device_id target s).0 ≡ good patched
        → (set_device_status N device_id target s).1 ≡ (N.devices_set_status device_id target s).1
    unfolding set_device_status ◌>>=◌
    written s device patched found differs done = rw (found, differs, done)

  -- A second run finds the status that a run which succeeded has left, and writes nothing.
  pub set_device_status-twice :
      (device_id : ℕ) (target : String) (s : N.State) (updated : Bool)
      → SetsStatus N
      → (set_device_status N device_id target s).0 ≡ ok updated
      → set_device_status N device_id target (set_device_status N device_id target s).1
        ≡ (ok false, (set_device_status N device_id target s).1)
  set_device_status-twice device_id target s updated sets h =
      let again = λ (u : N.State). set_device_status N device_id target u ≡ (ok false, u) in
      elim (Reply-cases (N.devices_retrieve device_id s)) [
        | inr (e, failed) ↦ absurd (ok≢err (sym h ∙ (unknown device_id target s e failed).1))
        | inl (device, found) ↦ elim (Bool-cases (device.status_value == target)) [
          | inl same ↦
              let first = already device_id target s device found same in
              subst again (sym (ap (λ r. r.1) first)) first
          | inr differs ↦ elim (Reply-cases (N.devices_set_status device_id target s).0) [
            | inr (e, failed) ↦
                absurd (ok≢err (sym h ∙ refused device_id target s device e found differs failed))
            | inl (patched, done) ↦
                let (new, found2, is_new) = sets device_id target s patched done in
                subst again (sym (written device_id target s device patched found differs done))
                  (already device_id target _ new found2 ((eq_iff _ _).1 is_new))
          ]
        ]
      ]

  -- The label that `createMetaFromDevice` writes is read back by `SyncStatus`: on an object with
  -- the labels of a device, whose number is an int32, and an annotation that asks for a status, the
  -- loop sets that status on that very device.
  pub sync_hardware-labels_of :
      (hw : Hardware) (device : Device) (serial target : String)
      → device.id < int32_mod
      → hw.labels ≡ labels_of device serial
      → target_of_annotation (lookup annotation_provisioned hw.annotations) ≡ some target
      → (s : N.State)
      → sync_hardware N hw s
        ≡ (attempt (set_device_status N device.id target) >>= λ updated.
              pure (with_status hw.name device.id updated ∷ []))
            s
  unfolding sync_hardware ◌>>=◌
  sync_hardware-labels_of hw device serial target h labelled asked s =
      let label : lookup label_netbox_device_id hw.labels ≡ some (itoa device.id) =
        ap (lookup label_netbox_device_id) labelled in
      rw (asked, label, itoa-NonEmpty device.id h, parse_int32-itoa device.id h)
        (bind_assoc (attempt (set_device_status N device.id target))
          (λ updated. pure (with_status hw.name device.id updated)) (λ r. pure (r ∷ [])) s)
