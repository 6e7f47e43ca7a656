-- ===== src/Tinkerbell/Patches/Laws.antt =====
-- What a change makes of a Hardware object, and how a run over many objects ends.
use machinecfg.Prelude.{
  ◌≡◌, refl, ◌≢◌, ap, ◌<>◌, Bool, true, Option, some, List, [], ◌∷◌, ◌++◌, map, All,
}
use machinecfg.Effect.{Outcome, ok, err, panic, Error, wrapped, continue, ◌>>=◌}
use machinecfg.Kube.{Kube, Hardware, HardwareInterface, Netboot}
use machinecfg.Tinkerbell.Patches.{
  allow_pxe_interface, set_allow_pxe, netboot_or_new, patch_hardware, patch_all,
}

-- An interface that may boot from the network.
abbrev pub BootsPxe : HardwareInterface → Type 0
BootsPxe i = (n : Netboot) × (i.netboot ≡ some n) × (n.allow_pxe ≡ some true)

abbrev pub allow_workflow_of : HardwareInterface → Option Bool
allow_workflow_of i = (netboot_or_new i.netboot).allow_workflow

interfaces-All : (is : List HardwareInterface) → All BootsPxe (map allow_pxe_interface is)
interfaces-All [] = tt
interfaces-All (i ∷ is) = ((_, refl, refl), interfaces-All is)

kept_in_all :
    (is : List HardwareInterface)
    → map (λ i. i.dhcp) (map allow_pxe_interface is) ≡ map (λ i. i.dhcp) is
kept_in_all [] = refl
kept_in_all (i ∷ is) = ap (λ xs. i.dhcp ∷ xs) (kept_in_all is)

workflows_kept :
    (is : List HardwareInterface)
    → map allow_workflow_of (map allow_pxe_interface is) ≡ map allow_workflow_of is
workflows_kept [] = refl
workflows_kept (i ∷ is) = ap (λ xs. allow_workflow_of i ∷ xs) (workflows_kept is)

-- The change of `AllowPXE` lets every interface boot from the network, and keeps the number of the
-- interfaces, their DHCP settings, their workflow flags and the labels of the object.
pub set_allow_pxe-BootsPxe :
    (hw : Hardware)
    → All BootsPxe (set_allow_pxe hw).interfaces
      × (map (λ i. i.dhcp) (set_allow_pxe hw).interfaces ≡ map (λ i. i.dhcp) hw.interfaces)
      × (map allow_workflow_of (set_allow_pxe hw).interfaces ≡ map allow_workflow_of hw.interfaces)
      × ((set_allow_pxe hw).labels ≡ hw.labels)
unfolding set_allow_pxe
set_allow_pxe-BootsPxe hw =
    (interfaces-All hw.interfaces, kept_in_all hw.interfaces, workflows_kept hw.interfaces, refl)

ok≢err : {e : Error} → err e ≢ ok (tt {0})
ok≢err h = cc h

ok≢panic : panic ≢ ok (tt {0})
ok≢panic h = cc h

module _ (K : Kube) (mutate : Hardware → Hardware) where
  -- Once the objects before it are patched, an object whose patch fails ends the run: its error is
  -- returned with the name of the object, and no object after it is touched.
  pub patch_all-stops :
      (before : List Hardware) (hw : Hardware) (rest : List Hardware) (s t u : K.State) (e : Error)
      → patch_all K mutate before s ≡ (ok tt, t)
      → patch_hardware K mutate hw t ≡ (err e, u)
      → patch_all K mutate (before ++ hw ∷ rest) s
        ≡ (err (record e { text = "failed to patch Hardware " <> hw.name <> ": " <> e.text }), u)
  unfolding patch_all ◌>>=◌
  patch_all-stops [] hw rest s t u e done failed = rw (ap (λ o. o.1) done, failed)
  patch_all-stops (b ∷ before) hw rest s t u e done failed =
      go (λ s' h. patch_all-stops before hw rest s' t u e h failed)
        (wrapped (λ t. "failed to patch Hardware " <> b.name <> ": " <> t)
          (patch_hardware K mutate b s).0)
        (patch_hardware K mutate b s).1 done
    where
      go :
          ((s' : K.State)
            → patch_all K mutate before s' ≡ (ok tt, t)
            → patch_all K mutate (before ++ hw ∷ rest) s' ≡ (
              err (record e { text = "failed to patch Hardware " <> hw.name <> ": " <> e.text }),
              u,
            ))
          → (o : Outcome (Unit {0})) (s' : K.State)
          → continue o (λ _. patch_all K mutate before) s' ≡ (ok tt, t)
          → continue o (λ _. patch_all K mutate (before ++ hw ∷ rest)) s' ≡ (
            err (record e { text = "failed to patch Hardware " <> hw.name <> ": " <> e.text }),
            u,
          )
      go later (ok _) s' h = later s' h
      go later (err e') s' h = absurd (ok≢err (ap (λ r. r.0) h))
      go later panic s' h = absurd (ok≢panic (ap (λ r. r.0) h))
