-- ===== src/KubernetesUpdater/Csv/Laws.antt =====
-- config.go: the lists of `splitCSV`, as filters.
use machinecfg.Prelude.{
  String, ◌≡◌, refl, ◌⊎◌, inl, inr, true, false, List, [], ◌∷◌, All, Bool-cases, ◌==◌, string_eq,
}
use machinecfg.Text.{split, trim_space, to_lower}
use machinecfg.Common.Filters.{given}
use machinecfg.KubernetesUpdater.Csv.{tokens, split_csv}

abbrev pub NonEmpty : String → Type 0
NonEmpty s = (s == "") ≡ false

tokens-All : (ps : List String) → All NonEmpty (tokens ps)
unfolding tokens
tokens-All [] = tt
tokens-All (p ∷ ps) = elim (Bool-cases (to_lower (trim_space p) == "")) [
  | inl e ↦ rw e (tokens-All ps)
  | inr e ↦ rw e (e, tokens-All ps)
]

given-All : (xs : List String) → All NonEmpty xs → (xs ≡ []) ⊎ (given xs ≡ true)
given-All [] h = inl refl
given-All (x ∷ xs) (h, _) = inr (rw h)

-- No token of a parsed list is empty, so the list is empty or counts as a filter that is given.
pub split_csv-given :
    (s : String) → All NonEmpty (split_csv s) × ((split_csv s ≡ []) ⊎ (given (split_csv s) ≡ true))
unfolding split_csv
split_csv-given s = elim (Bool-cases (trim_space s == "")) [
  | inl e ↦ rw e (tt, inl refl)
  | inr e ↦
      let h = tokens-All (split b',' (trim_space s)) in
      rw e (h, given-All (tokens (split b',' (trim_space s))) h)
]
