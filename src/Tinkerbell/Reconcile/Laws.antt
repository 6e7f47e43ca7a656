-- ===== src/Tinkerbell/Reconcile/Laws.antt =====
-- The merge of the desired labels into those of an object that exists.
use machinecfg.Prelude.{
  String, ◌≡◌, refl, ◌∙◌, ap, sym, or_empty, Bool, true, false, [], ◌∷◌, Dict, insert, get_text,
  lookup-insert, All, Bool-cases, inl, inr, ◌==◌, string_eq, if◌then◌else◌, eq_iff,
}
use mathlib.Core.Bool.{true≢false}
use machinecfg.Tinkerbell.Reconcile.{merge_labels}

-- The text that the last entry with a key gives, or else a text that is at hand.
abbrev pub latest : String → String → Dict String → String
latest key at_hand [] = at_hand
latest key at_hand ((k, v) ∷ more) = latest key (if k == key then v else at_hand) more

-- The label has this text, where a label that is missing counts as one with the empty text.
abbrev pub Holds : Dict String → String × String → Type 0
Holds labels (key, v) = get_text labels key ≡ v

get_text-insert :
    (k j v : String) (m : Dict String)
    → get_text (insert k v m) j ≡ (if k == j then v else get_text m j)
get_text-insert k j v m =
    ap or_empty (lookup-insert k j v m) ∙ elim (Bool-cases (k == j)) [ inl e ↦ rw e | inr e ↦ rw e ]

merge_labels-same :
    (labels more : Dict String) (p : Bool) (k v : String)
    → (get_text labels k == v) ≡ true
    → merge_labels labels p ((k, v) ∷ more) ≡ merge_labels labels p more
unfolding merge_labels
merge_labels-same labels more p k v e = rw (merge_labels, e)

merge_labels-new :
    (labels more : Dict String) (p : Bool) (k v : String)
    → (get_text labels k == v) ≡ false
    → merge_labels labels p ((k, v) ∷ more) ≡ merge_labels (insert k v labels) true more
unfolding merge_labels
merge_labels-new labels more p k v e = rw (merge_labels, e)

-- The merge gives each key the text of the last desired label with that key, and keeps the text of
-- every key that is not desired, whatever the flag was.
pub merge_labels-get_text :
    (desired labels : Dict String) (needs_patch : Bool) (key : String)
    → get_text (merge_labels labels needs_patch desired).0 key
      ≡ latest key (get_text labels key) desired
unfolding merge_labels
merge_labels-get_text [] labels needs_patch key = refl
merge_labels-get_text ((k, v) ∷ more) labels needs_patch key =
    elim (Bool-cases (get_text labels k == v)) [
      | inl e ↦
          rw (merge_labels-same labels more needs_patch k v e, kept labels e)
            (merge_labels-get_text more labels needs_patch key)
      | inr e ↦
          rw (merge_labels-new labels more needs_patch k v e, ← get_text-insert k key v labels)
            (merge_labels-get_text more (insert k v labels) true key)
    ]
  where
    kept :
        (labels : Dict String)
        → (get_text labels k == v) ≡ true
        → (if k == key then v else get_text labels key) ≡ get_text labels key
    kept labels e = elim (Bool-cases (k == key)) [
      | inl e2 ↦ rw e2 (sym ((eq_iff _ _).0 e) ∙ ap (get_text labels) ((eq_iff _ _).0 e2))
      | inr e2 ↦ rw e2
    ]

-- A flag that is set stays set.
merge_labels-flag : (desired labels : Dict String) → (merge_labels labels true desired).1 ≡ true
unfolding merge_labels
merge_labels-flag [] labels = refl
merge_labels-flag ((k, v) ∷ more) labels = elim (Bool-cases (get_text labels k == v)) [
  | inl e ↦ rw (merge_labels-same labels more true k v e) (merge_labels-flag more labels)
  | inr e ↦
      rw (merge_labels-new labels more true k v e) (merge_labels-flag more (insert k v labels))
]

pub merge_labels-settled :
    (desired labels : Dict String)
    → ((merge_labels labels false desired).1 ≡ false → All (Holds labels) desired)
      × (All (Holds labels) desired → merge_labels labels false desired ≡ (labels, false))
unfolding merge_labels
merge_labels-settled [] labels = ((λ _. tt), λ _. refl)
merge_labels-settled ((k, v) ∷ more) labels = elim (Bool-cases (get_text labels k == v)) [
  | inl e ↦
      let (to, from) = merge_labels-settled more labels in
      let same = merge_labels-same labels more false k v e in
      ((λ h. ((eq_iff _ _).0 e, to (sym (ap (λ r. r.1) same) ∙ h))), λ h. same ∙ from h.1)
  | inr e ↦
      let new = merge_labels-new labels more false k v e in
      let flag = merge_labels-flag more (insert k v labels) in
      (
        (λ h. absurd (true≢false (sym flag ∙ sym (ap (λ r. r.1) new) ∙ h))),
        λ h. absurd (true≢false (sym ((eq_iff _ _).1 h.0) ∙ e)),
      )
]
