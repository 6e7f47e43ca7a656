-- ===== src/Command/HardwareSync/Laws.antt =====
-- hardware_sync.go: the two loops and their summaries.
use machinecfg.Prelude.{ℕ, suc, ◌+◌, ◌≡◌, Bool, true, false, List, [], ◌∷◌, length, arith}
use machinecfg.Effect.{Exec, Reply, good, bad, ErrorKind, ok}
use machinecfg.Effect.Meets.{
  Meets, Meets-pure, Meets-bind, Meets-attempt, Meets-weaken, Meets-returns, Meets-on_right,
  Anything, tell-Meets,
}
use machinecfg.Netbox.{Netbox}
use machinecfg.Kube.{Kube, Hardware}
use machinecfg.Tinkerbell.Reconcile.Answers.{reconcile_existing_hardware-Meets}
use machinecfg.Command.HardwareSync.{
  Summary, counted, World, after_conflict, after_create, create_object, delete_object, sync_objects,
}

abbrev pub total : Summary → ℕ
total s = s.success + s.failure

counted-total : (b : Bool) (s : Summary) → total (counted b s) ≡ suc (total s)
counted-total true s = omega arith
counted-total false s = omega arith

module _ (N : Netbox) (K : Kube) where
  sync_objects-Meets :
      (act : Hardware → Exec (World N K) Bool)
      → ((h : Hardware) → Meets ⊥ Anything (act h))
      → (hs : List Hardware) (summary : Summary)
      → Meets ⊥ (λ s. total s ≡ total summary + length hs) (sync_objects N K act hs summary)
  unfolding sync_objects
  sync_objects-Meets act never [] summary = Meets-pure _ (omega arith)
  sync_objects-Meets act never (h ∷ hs) summary = Meets-bind _ _ (never h) λ success _.
      Meets-weaken _ (λ s e. omega (arith, e, counted-total success summary))
        (sync_objects-Meets act never hs (counted success summary))

  after_conflict-Meets :
      (h : Hardware) (kind : ErrorKind) → Meets ⊥ Anything (after_conflict N K h kind)
  after_conflict-Meets h ErrorKind.already_exists =
      Meets-bind _ _ (Meets-attempt ⊥ _ (reconcile_existing_hardware-Meets N K h))
        λ r _. Meets-pure _ tt
  after_conflict-Meets h ErrorKind.not_found = Meets-pure _ tt
  after_conflict-Meets h ErrorKind.other = Meets-pure _ tt

  after_create-Meets : (h : Hardware) (r : Reply Hardware) → Meets ⊥ Anything (after_create N K h r)
  after_create-Meets h (good created) = Meets-pure _ tt
  after_create-Meets h (bad e) = after_conflict-Meets h e.kind

  create_object-Meets : (h : Hardware) → Meets ⊥ Anything (create_object N K h)
  unfolding create_object
  create_object-Meets h =
      Meets-bind _ _ (Meets-attempt ⊥ _ (Meets-on_right _ (tell-Meets _)))
        λ r _. after_create-Meets h r

  -- Whatever the two systems answer, the loop that creates the objects ends, and its summary counts
  -- each of them exactly once, as a success or as a failure.
  pub sync_objects-create_object :
      (hs : List Hardware) (w : World N K)
      → (s : Summary) × ((sync_objects N K
            (create_object N K)
            hs
            (record { success = 0; failure = 0 })
            w).0
          ≡ ok s)
        × (s.success + s.failure ≡ length hs)
  sync_objects-create_object hs w =
      Meets-returns _
        (Meets-weaken _ (λ s e. omega (arith, e))
          (sync_objects-Meets (create_object N K) create_object-Meets hs
            (record { success = 0; failure = 0 })))
        w

  delete_object-Meets : (h : Hardware) → Meets ⊥ Anything (delete_object N K h)
  unfolding delete_object
  delete_object-Meets h =
      Meets-bind _ _ (Meets-attempt ⊥ _ (Meets-on_right _ (tell-Meets _))) λ r _. Meets-pure _ tt

  pub sync_objects-delete_object :
      (hs : List Hardware) (w : World N K)
      → (s : Summary) × ((sync_objects N K
            (delete_object N K)
            hs
            (record { success = 0; failure = 0 })
            w).0
          ≡ ok s)
        × (s.success + s.failure ≡ length hs)
  sync_objects-delete_object hs w =
      Meets-returns _
        (Meets-weaken _ (λ s e. omega (arith, e))
          (sync_objects-Meets (delete_object N K) delete_object-Meets hs
            (record { success = 0; failure = 0 })))
        w
