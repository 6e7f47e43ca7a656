-- ===== src/Tinkerbell/Reconcile/Patched.antt =====
-- The labels that an object has in Kubernetes once `ReconcileExistingHardware` has patched it.
use machinecfg.Prelude.{
  String, ◌≡◌, refl, ◌≢◌, ◌∙◌, ap, sym, true, false, get_text, Bool-cases, inl, inr,
}
use machinecfg.Effect.{good, bad, ok, err, Error, Reply-cases, pure, tell, wrap}
use machinecfg.Netbox.{Netbox}
use machinecfg.Kube.{Kube, Hardware}
use machinecfg.Tinkerbell.Reconcile.{merge_labels, patch_labels}
use machinecfg.Tinkerbell.Reconcile.Laws.{latest, merge_labels-get_text, merge_labels-settled}

-- What Kubernetes documents of a patch: the answer has the labels that were sent.
abbrev pub KeepsLabels : Kube → Type 0
KeepsLabels K =
    (old new answer : Hardware) (s : K.State)
    → (K.hardware_patch old new s).0 ≡ good answer
    → answer.labels ≡ new.labels

ok-injective : {a b : Hardware} → ok a ≡ ok b → a ≡ b
ok-injective h = cc h

err≢ok : {e : Error} {a : Hardware} → err e ≢ ok a
err≢ok h = cc h

module _ (N : Netbox) (K : Kube) where
  abbrev sent : Hardware → Hardware → Hardware
  sent existing desired = record existing {
    labels = (merge_labels existing.labels false desired.labels).0;
  }

  unpatched :
      (existing desired : Hardware) (s : K.State)
      → (merge_labels existing.labels false desired.labels).1 ≡ false
      → (patch_labels N K existing desired s).0 ≡ ok existing
  unfolding patch_labels pure
  unpatched existing desired s settled = rw settled

  patched :
      (existing desired answer : Hardware) (s : K.State)
      → (merge_labels existing.labels false desired.labels).1 ≡ true
      → (K.hardware_patch existing (sent existing desired) s).0 ≡ good answer
      → (patch_labels N K existing desired s).0 ≡ ok answer
  unfolding patch_labels wrap tell
  patched existing desired answer s needed done = rw (needed, done)

  refused :
      (existing desired : Hardware) (e : Error) (s : K.State)
      → (merge_labels existing.labels false desired.labels).1 ≡ true
      → (K.hardware_patch existing (sent existing desired) s).0 ≡ bad e
      → (e' : Error) × ((patch_labels N K existing desired s).0 ≡ err e')
  unfolding patch_labels wrap tell
  refused existing desired e s needed failed = rw (needed, failed) (_, refl)

  -- If Kubernetes answers a patch with the labels that were sent, the object that a run which
  -- succeeds goes on with has the desired text of every desired label, the last one of a key that
  -- is given twice, and the text of the object that existed for every other label; also when no
  -- patch was needed.
  pub patch_labels-get_text :
      (existing desired labelled : Hardware) (s : K.State) (key : String)
      → KeepsLabels K
      → (patch_labels N K existing desired s).0 ≡ ok labelled
      → get_text labelled.labels key ≡ latest key (get_text existing.labels key) desired.labels
  patch_labels-get_text existing desired labelled s key keeps h =
      let merged = merge_labels-get_text desired.labels existing.labels false key in
      elim (Bool-cases (merge_labels existing.labels false desired.labels).1) [
        | inr settled ↦
            let (to, from) = merge_labels-settled desired.labels existing.labels in
            let same = ok-injective (sym h ∙ unpatched existing desired s settled) in
            ap (λ (o : Hardware). get_text o.labels key) same
            ∙ ap (λ m. get_text m.0 key) (sym (from (to settled)))
            ∙ merged
        | inl needed ↦ elim (Reply-cases (K.hardware_patch existing (sent existing desired) s).0) [
          | inr (e, failed) ↦
              absurd (err≢ok (sym (refused existing desired e s needed failed).1 ∙ h))
          | inl (answer, done) ↦
              let same = ok-injective (sym h ∙ patched existing desired answer s needed done) in
              ap (λ (o : Hardware). get_text o.labels key) same
              ∙ ap (λ m. get_text m key) (keeps existing (sent existing desired) answer s done)
              ∙ merged
        ]
      ]
