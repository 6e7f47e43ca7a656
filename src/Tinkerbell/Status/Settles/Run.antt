-- ===== src/Tinkerbell/Status/Settles/Run.antt =====
-- sync_status.go: the loop over the Hardware objects, and a run after it.
use machinecfg.Prelude.{
  ℕ, String, ◌≡◌, ◌≢◌, refl, ◌∙◌, ap, sym, subst, Option, none, some, List, [], ◌∷◌, ◌++◌, lookup,
  All, All-append, All-append-parts, All-map, string_eq,
}
use machinecfg.Effect.{Reply, good, bad, ok, pure, ◌>>=◌}
use machinecfg.Effect.Inverts.{ok-injective, bind-Runs}
use machinecfg.Effect.Moves.{
  Moves, Preorder, keeps, reads, Moves-tell, Moves-bind, Moves-if, Moves-pure, Moves-attempt,
}
use machinecfg.Text.{parse_int32}
use machinecfg.Netbox.{Netbox}
use machinecfg.Kube.{Hardware}
use machinecfg.Tinkerbell.Names.{label_netbox_device_id}
use machinecfg.Tinkerbell.Status.{
  SyncStatusResult, set_device_status, update_device, update_labelled, update_if_target,
  sync_hardware, sync_hardwares,
}
use machinecfg.Tinkerbell.Status.Held.{
  SetsStatuses, AreApart, AllApart, IsClean, IsQuiet, HeldBy, HeldUnder, HeldFor, Holds,
}
use machinecfg.Tinkerbell.Status.Settles.{sync_hardware-Holds, sync_hardware-settled}

-- The object is not of the device.
abbrev Spares : ℕ → Hardware → Type 0
Spares id hw =
    (text : String)
    → lookup label_netbox_device_id hw.labels ≡ some text
    → parse_int32 text ≢ good id

module _ (N : Netbox) where
  abbrev keeps_device : ℕ → Preorder N.State
  keeps_device id = keeps (N.devices_retrieve id)

  module _ (s t : N.State) (target : String) where
    HeldBy-stays :
        (asked : Reply ℕ)
        → ((id : ℕ) → asked ≡ good id → N.devices_retrieve id t ≡ N.devices_retrieve id s)
        → HeldBy N target asked s
        → HeldBy N target asked t
    HeldBy-stays (bad e) kept h = absurd h
    HeldBy-stays (good id) kept (device, found, is_target) =
        (device, kept id refl ∙ found, is_target)

    HeldUnder-stays :
        (label : Option String)
        → ((text : String) (id : ℕ)
            → label ≡ some text
            → parse_int32 text ≡ good id
            → N.devices_retrieve id t ≡ N.devices_retrieve id s)
        → HeldUnder N target label s
        → HeldUnder N target label t
    HeldUnder-stays none kept h = absurd h
    HeldUnder-stays (some text) kept (given, h) =
        (given, HeldBy-stays (parse_int32 text) (λ id. kept text id refl) h)

  HeldFor-stays :
      (hw : Hardware) (target : Option String) (s t : N.State)
      → ((text : String) (id : ℕ)
          → lookup label_netbox_device_id hw.labels ≡ some text
          → parse_int32 text ≡ good id
          → N.devices_retrieve id t ≡ N.devices_retrieve id s)
      → HeldFor N hw target s
      → HeldFor N hw target t
  HeldFor-stays hw none s t kept h = tt
  HeldFor-stays hw (some target) s t kept h = HeldUnder-stays s t target _ kept h

module _ (N : Netbox) (P : Preorder N.State) where
  -- The writes to the devices that the object names move along the preorder.
  abbrev WritesTo : Reply ℕ → Type 0
  WritesTo asked =
      (id : ℕ)
      → asked ≡ good id
      → (target : String) (s : N.State) → P.rel s (N.devices_set_status id target s).1

  pub set_device_status-Moves :
      (id : ℕ) (target : String)
      → ((target : String) (s : N.State) → P.rel s (N.devices_set_status id target s).1)
      → Moves P (set_device_status N id target)
  unfolding set_device_status
  set_device_status-Moves id target writes = search (reads, Moves-tell, writes) depth 12

  update_device-Moves :
      (name text target : String) (asked : Reply ℕ)
      → WritesTo asked
      → Moves P (update_device N name text target asked)
  update_device-Moves name text target (bad e) writes = search reads depth 12
  update_device-Moves name text target (good id) writes =
      Moves-bind _ _ (Moves-attempt _ (set_device_status-Moves id target (writes id refl)))
        λ updated. Moves-pure _

  update_labelled-Moves :
      (name target : String) (label : Option String)
      → ((text : String) → label ≡ some text → WritesTo (parse_int32 text))
      → Moves P (update_labelled N name target label)
  update_labelled-Moves name target none writes = search reads depth 12
  update_labelled-Moves name target (some text) writes =
      Moves-if _ _ _ (Moves-pure _)
        (update_device-Moves name text target (parse_int32 text) (writes text refl))

  abbrev WritesOf : Hardware → Type 0
  WritesOf hw =
      (text : String)
      → lookup label_netbox_device_id hw.labels ≡ some text
      → WritesTo (parse_int32 text)

  update_if_target-Moves :
      (hw : Hardware) (target : Option String)
      → WritesOf hw
      → Moves P (update_if_target N hw target)
  update_if_target-Moves hw none writes = search reads depth 12
  update_if_target-Moves hw (some target) writes =
      Moves-bind _ _ (update_labelled-Moves hw.name target _ writes) λ result. Moves-pure _

  sync_hardwares-Moves : (hws : List Hardware) → All WritesOf hws → Moves P (sync_hardwares N hws)
  unfolding sync_hardwares sync_hardware
  sync_hardwares-Moves [] writes = search reads depth 12
  sync_hardwares-Moves (hw ∷ hws) (here, there) =
      Moves-bind _ _ (update_if_target-Moves hw _ here)
        λ results. Moves-bind _ _ (sync_hardwares-Moves hws there) λ rest. Moves-pure _

module _ (N : Netbox) (laws : SetsStatuses N) where
  others-WritesOf :
      (hw : Hardware) (text : String) (id : ℕ)
      → lookup label_netbox_device_id hw.labels ≡ some text
      → parse_int32 text ≡ good id
      → (hws : List Hardware) → All (AreApart hw) hws
      → All (WritesOf N (keeps_device N id)) hws
  others-WritesOf hw text id labelled asked hws apart =
      All-map
        (λ other is_apart text' labelled' id' asked' target s.
          laws.others id' id target s
            λ same. is_apart text text' id labelled labelled' asked (asked' ∙ ap good (sym same)))
        hws apart

  -- What the run over an object and the others after it is made of.
  abbrev Parts : Hardware → List Hardware → N.State → List SyncStatusResult → Type 0
  Parts hw hws s rs =
      (here : List SyncStatusResult) × (there : List SyncStatusResult) × ((sync_hardware N hw s).0
        ≡ ok here)
      × ((sync_hardwares N hws (sync_hardware N hw s).1).0 ≡ ok there)
      × (rs ≡ here ++ there)
      × ((sync_hardwares N (hw ∷ hws) s).1 ≡ (sync_hardwares N hws (sync_hardware N hw s).1).1)

  sync_hardwares-Parts :
      (hw : Hardware) (hws : List Hardware) (s : N.State) {rs : List SyncStatusResult}
      → (sync_hardwares N (hw ∷ hws) s).0 ≡ ok rs
      → Parts hw hws s rs
  unfolding sync_hardwares ◌>>=◌
  sync_hardwares-Parts hw hws s h =
      let after =
        λ (here : List SyncStatusResult). sync_hardwares N hws >>= λ there. pure (here ++ there) in
      let (here, done, rest, moved) = bind-Runs (sync_hardware N hw) after s h in
      let (there, done', rest', moved') =
        bind-Runs (sync_hardwares N hws) (λ there. pure (here ++ there)) (sync_hardware N hw s).1
          rest in
      (here, there, done, done', sym (ok-injective rest'), moved ∙ moved')

  Holds-stays :
      (hw : Hardware) (hws : List Hardware) (s : N.State)
      → All (AreApart hw) hws
      → Holds N s hw
      → Holds N (sync_hardwares N hws s).1 hw
  Holds-stays hw hws s apart held =
      HeldFor-stays N hw _ s _
        (λ text id labelled asked.
          (sync_hardwares-Moves N (keeps_device N id) hws
              (others-WritesOf hw text id labelled asked hws apart)).at
            s)
        held

  -- Each object has what it asks for after a run without errors.
  sync_hardwares-Holds :
      (hws : List Hardware) (s : N.State) {rs : List SyncStatusResult}
      → AllApart hws
      → (sync_hardwares N hws s).0 ≡ ok rs
      → All IsClean rs
      → All (Holds N (sync_hardwares N hws s).1) hws
  sync_hardwares-Holds [] s apart h clean = tt
  sync_hardwares-Holds (hw ∷ hws) s (apart, aparts) h clean =
      let (here, there, done, done', parts, moved) = sync_hardwares-Parts hw hws s h in
      let (clean_here, clean_there) =
        All-append-parts IsClean here there (subst (All IsClean) parts clean) in
      subst (λ u. All (Holds N u) (hw ∷ hws)) (sym moved)
        (
          Holds-stays hw hws _ apart (sync_hardware-Holds N laws hw s done clean_here),
          sync_hardwares-Holds hws _ aparts done' clean_there,
        )

  sync_hardwares-settled :
      (hws : List Hardware) (s : N.State)
      → All (Holds N s) hws
      → (rs : List SyncStatusResult) × (sync_hardwares N hws s ≡ (ok rs, s)) × All IsQuiet rs
  unfolding sync_hardwares ◌>>=◌
  sync_hardwares-settled [] s held = ([], refl, tt)
  sync_hardwares-settled (hw ∷ hws) s (here, there) =
      let (rs, done, quiet) = sync_hardware-settled N laws hw s here in
      let (rest, done', quiet') = sync_hardwares-settled hws s there in
      rw (done, done') (_, refl, All-append IsQuiet rs rest quiet quiet')

  -- A run over Hardware objects of different devices that returns no error leaves each device with
  -- the status that its object asks for, whatever status the device had before, staged or not, and
  -- a second run returns only results without an update and without an error, and leaves NetBox as
  -- it is; where NetBox keeps a status that it accepts, leaves other devices alone then, and
  -- explains what it refuses.
  pub sync_hardwares-Settles :
      (hws : List Hardware) (s : N.State) {rs : List SyncStatusResult}
      → AllApart hws
      → (sync_hardwares N hws s).0 ≡ ok rs
      → All IsClean rs
      → All (Holds N (sync_hardwares N hws s).1) hws
        × ((again : List SyncStatusResult) × (sync_hardwares N hws (sync_hardwares N hws s).1
              ≡ (ok again, (sync_hardwares N hws s).1))
            × All IsQuiet again)
  sync_hardwares-Settles hws s apart h clean =
      let held = sync_hardwares-Holds hws s apart h clean in
      (held, sync_hardwares-settled hws _ held)
