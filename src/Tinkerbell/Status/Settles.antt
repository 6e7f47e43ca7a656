-- ===== src/Tinkerbell/Status/Settles.antt =====
-- sync_status.go: one Hardware object, in a run of `SyncStatus` and in a run after it.
pub mod Run
use Prim.Native.String.{◌∷◌, char_at}
use Prim.Native.String.append.{cons}
use machinecfg.Prelude.{
  Char, ℕ, String, ◌<>◌, ◌≡◌, ◌≢◌, refl, ◌∙◌, ap, sym, subst, Bool, true, false, Option, none, some,
  List, [], ◌∷◌, ◌++◌, lookup, All, All-append, All-map, Bool-cases, inl, inr, ◌⊎◌, ◌==◌, string_eq,
  if◌then◌else◌, eq_iff,
}
use machinecfg.Effect.{
  Reply, good, bad, ok, err, panic, Outcome, Error, pure, attempt, Reply-cases, ◌>>=◌,
}
use machinecfg.Effect.Inverts.{ok-injective, bind-Runs}
use machinecfg.Text.{itoa, parse_int32}
use machinecfg.Netbox.{Netbox, Device}
use machinecfg.Kube.{Hardware}
use machinecfg.Tinkerbell.Names.{annotation_provisioned, label_netbox_device_id}
use machinecfg.Tinkerbell.Status.Held.{
  SetsStatuses, IsClean, IsQuiet, HasStatus, HeldBy, HeldUnder, HeldFor, Holds,
}
use machinecfg.Tinkerbell.Status.{
  SyncStatusResult, with_status, missing_label, set_device_status, target_of_annotation,
  update_device, update_labelled, update_if_target, sync_hardware, sync_hardwares,
}

append-NonEmpty : (c : Char) (s t : String) → (c ∷ s) <> t ≢ ""
append-NonEmpty c s t h = cons≢nil (λ i. cons c s t i) h
  where
    cons≢nil : {u v : String} → v ≡ c ∷ u → v ≢ ""
    cons≢nil e k = cc (sym e ∙ k)

explained_text : (id text : String) → "cannot retrieve NetBox device " <> id <> ": " <> text ≢ ""
explained_text id text = append-NonEmpty (char_at "c" 0) "annot retrieve NetBox device " _

invalid_text : (text : String) → "invalid netbox-device-id: " <> text ≢ ""
invalid_text text = append-NonEmpty (char_at "i" 0) "nvalid netbox-device-id: " text

missing : {s : String} → s ≡ "label netbox-device-id missing" → s ≢ ""
missing e h = cc (sym e ∙ h)

module _ (N : Netbox) (laws : SetsStatuses N) where
  set_device_status-cases :
      (id : ℕ) (target : String) (s : N.State)
      → ((updated : Bool) × ((set_device_status N id target s).0 ≡ ok updated)
          × HasStatus N id target (set_device_status N id target s).1)
        ⊎ ((e : Error) × ((set_device_status N id target s).0 ≡ err e) × (e.text ≢ ""))
  unfolding set_device_status ◌>>=◌
  set_device_status-cases id target s = elim (Reply-cases (N.devices_retrieve id s)) [
    | inr (e, failed) ↦ inr (rw failed (_, refl, explained_text (itoa id) e.text))
    | inl (device, found) ↦ elim (Bool-cases (device.status_value == target)) [
      | inl same ↦ inl (rw (found, same) (false, refl, (device, found, (eq_iff _ _).0 same)))
      | inr differs ↦ elim (Reply-cases (N.devices_set_status id target s).0) [
        | inr (e, failed) ↦
            inr (rw (found, differs, failed) (e, refl, laws.explained id target s failed))
        | inl (patched, done) ↦
            inl (rw (found, differs, done) (true, refl, laws.changed id target s done))
      ]
    ]
  ]

  set_device_status-settled :
      (id : ℕ) (target : String) (s : N.State)
      → HasStatus N id target s
      → set_device_status N id target s ≡ (ok false, s)
  unfolding set_device_status ◌>>=◌
  set_device_status-settled id target s (device, found, is_target) =
      let same : (device.status_value == target) ≡ true = (eq_iff _ _).1 is_target in
      rw (found, same)

  update_device-Held :
      (name text target : String) (id : Reply ℕ) (s : N.State) {r : SyncStatusResult}
      → (update_device N name text target id s).0 ≡ ok r
      → IsClean r
      → HeldBy N target id (update_device N name text target id s).1
  unfolding ◌>>=◌
  update_device-Held name text target (bad e) s h clean =
      absurd (invalid_text text (ap (λ r. r.error) (ok-injective h) ∙ clean))
  update_device-Held name text target (good id) s h clean =
      elim (set_device_status-cases id target s) [
        | inl (updated, done, held) ↦ rw done held
        | inr (e, failed, explained) ↦
            let result : (update_device N name text target (good id) s).0
                ≡ ok (with_status name id (bad e)) =
              rw failed refl in
            absurd (
              explained
                (ap (λ (r : SyncStatusResult). r.error) (ok-injective (sym result ∙ h)) ∙ clean))
      ]

  update_device-settled :
      (name text target : String) (id : Reply ℕ) (s : N.State)
      → HeldBy N target id s
      → (r : SyncStatusResult) × (update_device N name text target id s ≡ (ok r, s)) × IsQuiet r
  unfolding ◌>>=◌
  update_device-settled name text target (bad e) s h = absurd h
  update_device-settled name text target (good id) s h =
      rw (set_device_status-settled id target s h) (_, refl, (refl, refl))

  update_given-Held :
      (name target text : String) (empty : Bool) (s : N.State) {r : SyncStatusResult}
      → (text == "") ≡ empty
      → ((if empty
            then pure (missing_label name)
            else update_device N name text target (parse_int32 text))
          s).0
        ≡ ok r
      → IsClean r
      → HeldUnder N target
          (some text)
          ((if empty
              then pure (missing_label name)
              else update_device N name text target (parse_int32 text))
            s).1
  unfolding pure
  update_given-Held name target text true s e h clean =
      absurd (missing refl (ap (λ (r : SyncStatusResult). r.error) (ok-injective h) ∙ clean))
  update_given-Held name target text false s e h clean =
      (e, update_device-Held name text target (parse_int32 text) s h clean)

  update_labelled-Held :
      (name target : String) (label : Option String) (s : N.State) {r : SyncStatusResult}
      → (update_labelled N name target label s).0 ≡ ok r
      → IsClean r
      → HeldUnder N target label (update_labelled N name target label s).1
  unfolding pure
  update_labelled-Held name target none s h clean =
      absurd (missing refl (ap (λ (r : SyncStatusResult). r.error) (ok-injective h) ∙ clean))
  update_labelled-Held name target (some text) s h clean =
      update_given-Held name target text (text == "") s refl h clean

  update_labelled-settled :
      (name target : String) (label : Option String) (s : N.State)
      → HeldUnder N target label s
      → (r : SyncStatusResult) × (update_labelled N name target label s ≡ (ok r, s)) × IsQuiet r
  update_labelled-settled name target none s h = absurd h
  update_labelled-settled name target (some text) s (given, h) =
      rw given (update_device-settled name text target (parse_int32 text) s h)

  module _ (hw : Hardware) where
    update_if_target-Held :
        (target : Option String) (s : N.State) {rs : List SyncStatusResult}
        → (update_if_target N hw target s).0 ≡ ok rs
        → All IsClean rs
        → HeldFor N hw target (update_if_target N hw target s).1
    unfolding ◌>>=◌
    update_if_target-Held none s h clean = tt
    update_if_target-Held (some target) s h clean =
        let (r, done, rest, moved) =
          bind-Runs (update_labelled N hw.name target (lookup label_netbox_device_id hw.labels))
            (λ r. pure (r ∷ [])) s h in
        let clean' : IsClean r = (subst (All IsClean) (sym (ok-injective rest)) clean).0 in
        subst (HeldUnder N target (lookup label_netbox_device_id hw.labels)) (sym moved)
          (update_labelled-Held hw.name target _ s done clean')

    update_if_target-settled :
        (target : Option String) (s : N.State)
        → HeldFor N hw target s
        → (rs : List SyncStatusResult) × (update_if_target N hw target s ≡ (ok rs, s))
          × All IsQuiet rs
    unfolding ◌>>=◌
    update_if_target-settled none s h = ([], refl, tt)
    update_if_target-settled (some target) s h =
        let (r, done, quiet) =
          update_labelled-settled hw.name target (lookup label_netbox_device_id hw.labels) s h in
        rw done (_, refl, (quiet, tt))

    pub sync_hardware-Holds :
        (s : N.State) {rs : List SyncStatusResult}
        → (sync_hardware N hw s).0 ≡ ok rs
        → All IsClean rs
        → Holds N (sync_hardware N hw s).1 hw
    unfolding sync_hardware
    sync_hardware-Holds s h clean = update_if_target-Held _ s h clean

    pub sync_hardware-settled :
        (s : N.State)
        → Holds N s hw
        → (rs : List SyncStatusResult) × (sync_hardware N hw s ≡ (ok rs, s)) × All IsQuiet rs
    unfolding sync_hardware
    sync_hardware-settled s h = update_if_target-settled _ s h
