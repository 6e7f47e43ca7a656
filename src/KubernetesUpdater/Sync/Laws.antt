-- ===== src/KubernetesUpdater/Sync/Laws.antt =====
-- The round of the reconciler that polls NetBox, and its loops over Hardware objects.
use machinecfg.Butane.Config.{Config as ButaneConfig}
use machinecfg.Prelude.{String, ◌≡◌, ◌≢◌, refl, ◌⊎◌, inl, inr, nat_eq, string_eq}
use machinecfg.Effect.{Outcome, bad, ok, err, panic, Error, ErrorKind, pure, raise, continue, ◌>>=◌}
use machinecfg.Netbox.{Netbox}
use machinecfg.Kube.{Kube, Hardware}
use machinecfg.KubernetesUpdater.Sync.{
  World, apply_hardware, prune_hardware, create_or_raise, gone_or_raise,
}

exists≢missing : ErrorKind.already_exists ≢ ErrorKind.not_found
exists≢missing h = cc h

other≢missing : ErrorKind.other ≢ ErrorKind.not_found
other≢missing h = cc h

module _ (N : Netbox) (K : Kube)
    (flatcar_translation fcos_translation : ButaneConfig → Outcome String) where
  after_create :
      (o : Outcome Hardware) (u : World N K flatcar_translation fcos_translation)
      → (continue o (λ _. pure {A = Unit {0}} tt) u).1 ≡ u
  unfolding pure
  after_create (ok a) u = refl
  after_create (err e) u = refl
  after_create panic u = refl

  -- What `create_or_raise` does with each kind of error.
  abbrev Answers :
      Hardware
      → World N K flatcar_translation fcos_translation
      → ErrorKind
      → Outcome (Unit {0}) × World N K flatcar_translation fcos_translation
      → Type 0
  Answers hw w kind r =
      ((kind ≡ ErrorKind.not_found) × (r.1 ≡ (w.0, (K.hardware_create hw w.1).1)))
      ⊎ ((kind ≢ ErrorKind.not_found)
          × (r.1 ≡ w)
          × ((e' : Error) × (r.0 ≡ err e') × (e'.kind ≡ kind)))

  create_or_raise-Answers :
      (hw : Hardware) (w : World N K flatcar_translation fcos_translation) (kind : ErrorKind)
      (e : Error)
      → e.kind ≡ kind
      → Answers hw w kind (create_or_raise N K flatcar_translation fcos_translation hw kind e w)
  unfolding ◌>>=◌
  create_or_raise-Answers hw w ErrorKind.not_found e h = inl (refl, after_create _ _)
  create_or_raise-Answers hw w ErrorKind.already_exists e h =
      inr (exists≢missing, refl, (_, refl, h))
  create_or_raise-Answers hw w ErrorKind.other e h = inr (other≢missing, refl, (_, refl, h))

  -- For an object that Kubernetes does not have, `applyHardware` creates exactly the desired one;
  -- on any other error of the look-up it writes nothing and keeps the kind of the error.
  pub apply_hardware-missing :
      (hw : Hardware) (w : World N K flatcar_translation fcos_translation) (e : Error)
      → K.hardware_get hw.namespace hw.name w.1 ≡ bad e
      → ((e.kind ≡ ErrorKind.not_found)
          × ((apply_hardware N K flatcar_translation fcos_translation hw w).1
              ≡ (w.0, (K.hardware_create hw w.1).1)))
        ⊎ ((e.kind ≢ ErrorKind.not_found)
            × ((apply_hardware N K flatcar_translation fcos_translation hw w).1 ≡ w)
            × ((e' : Error) × ((apply_hardware N K flatcar_translation fcos_translation hw w).0
                  ≡ err e')
                × (e'.kind ≡ e.kind)))
  unfolding apply_hardware ◌>>=◌
  apply_hardware-missing hw w e h = rw h (create_or_raise-Answers hw w e.kind e refl)

  gone_or_raise-same :
      (hw : Hardware) (w : World N K flatcar_translation fcos_translation) (kind : ErrorKind)
      (e : Error)
      → (gone_or_raise N K flatcar_translation fcos_translation hw kind e w).1 ≡ w
  unfolding pure raise
  gone_or_raise-same hw w ErrorKind.not_found e = refl
  gone_or_raise-same hw w ErrorKind.already_exists e = refl
  gone_or_raise-same hw w ErrorKind.other e = refl

  -- A Hardware object that is gone already is not deleted, and nothing is written.
  pub prune_hardware-gone :
      (namespace : String) (hw : Hardware) (w : World N K flatcar_translation fcos_translation)
      (e : Error)
      → K.hardware_get hw.namespace hw.name w.1 ≡ bad e
      → (prune_hardware N K flatcar_translation fcos_translation namespace hw w).1 ≡ w
  unfolding prune_hardware ◌>>=◌
  prune_hardware-gone namespace hw w e h = rw h (gone_or_raise-same hw w e.kind e)

  -- For an object that Kubernetes does not have, `applyHardware` creates exactly the desired one;
  -- on an error of the look-up of any other kind it writes nothing and fails with that kind. The
  -- pruning of an object of which the look-up fails writes nothing.
  pub missing_hardware-Answers :
      (namespace : String) (hw : Hardware) (w : World N K flatcar_translation fcos_translation)
      (e : Error)
      → K.hardware_get hw.namespace hw.name w.1 ≡ bad e
      → (((e.kind ≡ ErrorKind.not_found)
            × ((apply_hardware N K flatcar_translation fcos_translation hw w).1
                ≡ (w.0, (K.hardware_create hw w.1).1)))
          ⊎ ((e.kind ≢ ErrorKind.not_found)
              × ((apply_hardware N K flatcar_translation fcos_translation hw w).1 ≡ w)
              × ((e' : Error) × ((apply_hardware N K flatcar_translation fcos_translation hw w).0
                    ≡ err e')
                  × (e'.kind ≡ e.kind))))
        × ((prune_hardware N K flatcar_translation fcos_translation namespace hw w).1 ≡ w)
  missing_hardware-Answers namespace hw w e h =
      (apply_hardware-missing hw w e h, prune_hardware-gone namespace hw w e h)
