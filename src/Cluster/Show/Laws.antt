-- ===== src/Cluster/Show/Laws.antt =====
-- show.go: the table of the clusters.
use machinecfg.Prelude.{
  ℕ, String, ◌≡◌, refl, Option, none, some, List, [], ◌∷◌, lookup, length, Exists, inl, inr, ◌==◌,
  string_eq, Bool-cases,
}
use machinecfg.Effect.{Reply, good, bad, ok}
use machinecfg.Effect.Meets.{
  ask-Meets, Meets, Meets-pure, Meets-if, Meets-attempt, Meets-bind, Meets-wrap, Meets-returns,
  Meets-on_left, Meets-on_right, Anything,
}
use machinecfg.Netbox.{Netbox, NbCluster}
use machinecfg.Kube.{Kube, Item, map_item, other_item}
use machinecfg.Cluster.Names.{managed_type_slug}
use machinecfg.Cluster.Show.{
  ClusterRow, ready_of_conditions, ready_of_item, is_ready_type, found_conditions, ready_of_status,
  ready_of_reply, get_capi_cluster_info, get_cluster_devices, get_cluster_vms, show_row, show_rows,
}

-- The answers that a cell of the readiness may hold.
abbrev pub IsAnswer : String → Type 0
IsAnswer s = Exists (λ t. s ≡ t) ("" ∷ "true" ∷ "false" ∷ "unknown" ∷ [])

abbrev pub IsRow : NbCluster → ClusterRow → Type 0
IsRow c row =
    (row.name ≡ c.name) × (row.device_count ≡ length row.devices) × IsAnswer row.capi_ready

abbrev pub AreRows : List NbCluster → List ClusterRow → Type 0
AreRows [] [] = Unit
AreRows [] (row ∷ rows) = ⊥
AreRows (c ∷ cs) [] = ⊥
AreRows (c ∷ cs) (row ∷ rows) = IsRow c row × AreRows cs rows

abbrev MayAnswer : Option String → Type 0
MayAnswer none = Unit
MayAnswer (some s) = IsAnswer s

ready_of_status-IsAnswer : (s : Option (Option String)) → MayAnswer (ready_of_status s)
ready_of_status-IsAnswer none = tt
ready_of_status-IsAnswer (some none) = tt
ready_of_status-IsAnswer (some (some s)) = elim (Bool-cases (s == "True")) [
  | inl e ↦ rw e (inr (inl refl))
  | inr e ↦ elim (Bool-cases (s == "False")) [
    | inl e2 ↦ rw (e, e2) (inr (inr (inl refl)))
    | inr e2 ↦ rw (e, e2) (inr (inr (inr (inl refl))))
  ]
]

ready_of_item-IsAnswer : (i : Item) → MayAnswer (ready_of_item i)
ready_of_item-IsAnswer other_item = tt
ready_of_item-IsAnswer (map_item cond) = elim (Bool-cases (is_ready_type (lookup "type" cond))) [
  | inl e ↦ rw e (ready_of_status-IsAnswer (lookup "status" cond))
  | inr e ↦ rw e tt
]

ready_of_conditions-IsAnswer : (cs : List Item) → IsAnswer (ready_of_conditions cs)
unfolding ready_of_conditions
ready_of_conditions-IsAnswer [] = inl refl
ready_of_conditions-IsAnswer (c ∷ cs) =
    go (ready_of_item c) (ready_of_item-IsAnswer c) (ready_of_conditions-IsAnswer cs)
  where
    go :
        (answer : Option String)
        → MayAnswer answer
        → IsAnswer (ready_of_conditions cs)
        → IsAnswer (elim answer [ none ↦ ready_of_conditions cs | some s ↦ s ])
    go none h k = k
    go (some s) h k = h

module _ (N : Netbox) (K : Kube) where
  get_capi_cluster_info-Meets :
      (namespace name : String) → Meets ⊥ IsAnswer (get_capi_cluster_info K namespace name)
  unfolding get_capi_cluster_info
  get_capi_cluster_info-Meets namespace name =
      Meets-bind _ _ (Meets-attempt ⊥ _ (ask-Meets _)) λ r _. Meets-pure _ (answers r)
    where
      answers : (r : Reply K.Object) → IsAnswer (ready_of_reply K r)
      answers (good o) =
          ready_of_conditions-IsAnswer
            (found_conditions (K.nested_slice o ("status" ∷ "conditions" ∷ [])))
      answers (bad e) = inl refl

  devices-Meets : (id : ℕ) → Meets Unit Anything (get_cluster_devices N id)
  unfolding get_cluster_devices
  devices-Meets id = Meets-bind _ _ (Meets-wrap _ _ (ask-Meets _)) λ page _. Meets-pure _ tt

  vms-Meets : (id : ℕ) → Meets Unit Anything (get_cluster_vms N id)
  unfolding get_cluster_vms
  vms-Meets id = Meets-bind _ _ (Meets-wrap _ _ (ask-Meets _)) λ page _. Meets-pure _ tt

  show_row-Meets :
      (namespace : String) (c : NbCluster) → Meets ⊥ (IsRow c) (show_row N K namespace c)
  unfolding show_row
  show_row-Meets namespace c =
      Meets-bind _ _ (Meets-attempt ⊥ _ (Meets-on_left _ (devices-Meets c.id))) λ devices _.
        Meets-bind _ _ (Meets-attempt ⊥ _ (Meets-on_left _ (vms-Meets c.id))) λ vms _.
          Meets-bind _ _
            (Meets-if (c.type_slug == managed_type_slug) _ _
              (λ _. Meets-on_right _ (get_capi_cluster_info-Meets namespace c.name))
              (λ _. Meets-pure _ (inl refl)))
            λ ready answers. Meets-pure _ (refl, refl, answers)

  show_rows-Meets :
      (namespace : String) (cs : List NbCluster) → Meets ⊥ (AreRows cs) (show_rows N K namespace cs)
  unfolding show_rows
  show_rows-Meets namespace [] = Meets-pure _ tt
  show_rows-Meets namespace (c ∷ cs) =
      Meets-bind _ _ (show_row-Meets namespace c)
        λ row h. Meets-bind _ _ (show_rows-Meets namespace cs) λ rows k. Meets-pure _ (h, k)

  -- Whatever the two systems answer, the loop over the clusters returns one row for each cluster,
  -- in their order: with its name, with a number of machines that is the number of the names in the
  -- row, and with a readiness that is empty, "true", "false" or "unknown".
  pub show_rows-AreRows :
      (namespace : String) (cs : List NbCluster) (w : N.State × K.State)
      → (rows : List ClusterRow) × ((show_rows N K namespace cs w).0 ≡ ok rows) × AreRows cs rows
  show_rows-AreRows namespace cs w = Meets-returns _ (show_rows-Meets namespace cs) w
