-- ===== src/Cluster/Sync/Laws.antt =====
-- sync_status.go: the results of a run of `SyncStatus`.
use machinecfg.Prelude.{
  ℕ, ◌<◌, ◌+◌, ◌%◌, nat_beq, subst, ◌≢◌, String, ◌≡◌, refl, ◌∙◌, ap, ap₂, sym, Bool, true, false,
  some, ◌||◌, List, [], ◌∷◌, ◌++◌, map, keep, string_eq, ◌==◌, arith, Bool-cases, inl, inr,
}
use mathlib.Core.List.{map-append}
use machinecfg.Effect.{Reply, good, bad, ok, Exec, ◌>>=◌}
use machinecfg.Effect.Meets.{
  Meets, Meets-pure, Meets-attempt, Meets-bind, Meets-on_left, Meets-on_right, Meets-returns,
  Meets-weaken, Anything, ReplyIn,
}
use machinecfg.Text.{int32_mod}
use machinecfg.Netbox.{Netbox, Page, NbCluster, FhrpGroup}
use machinecfg.Netbox.Pages.{IsShown, HasPages}
use machinecfg.Kube.{Kube}
use machinecfg.Cluster.Names.{managed_type_slug, standalone_type_slug}
use machinecfg.Cluster.Records.{get_next_fhrp_group_id, highest_group, next_of_page}
use machinecfg.Cluster.Records.Answers.{get_or_create_fhrp_group-Meets, get_headnode_endpoint-Meets}
use machinecfg.Cluster.Tailscale.Answers.{get_capi_cluster_endpoint-Meets}
use machinecfg.Cluster.Sync.Steps.{SyncStatusResult, Step, go_on, stop, result_of}
use machinecfg.Cluster.Sync.Steps.Answers.{Names, managed_stage-Meets, service_stage-Meets}
use machinecfg.Cluster.Sync.{
  World, cluster_params, sync_status, endpoint, then_services, round, sync_records, after_group,
  after_endpoint, sync_cluster, sync_clusters,
}

-- The clusters that `SyncStatus` handles.
abbrev pub is_kubernetes : NbCluster → Bool
is_kubernetes c = c.type_slug == managed_type_slug || c.type_slug == standalone_type_slug

abbrev pub names_of : List SyncStatusResult → List String
names_of rs = map (λ r. r.cluster_name) rs

abbrev pub kubernetes_names : List NbCluster → List String
kubernetes_names cs = map (λ c. c.name) (keep is_kubernetes cs)

abbrev Reports : NbCluster → List SyncStatusResult × ℕ → Type 0
Reports c answer = names_of answer.0 ≡ kubernetes_names (c ∷ [])

reported : (c : NbCluster) → is_kubernetes c ≡ true → kubernetes_names (c ∷ []) ≡ c.name ∷ []
reported c h = rw h

not_reported : (c : NbCluster) → is_kubernetes c ≡ false → kubernetes_names (c ∷ []) ≡ []
not_reported c h = rw h

kubernetes_names-cons :
    (c : NbCluster) (cs : List NbCluster)
    → kubernetes_names (c ∷ cs) ≡ kubernetes_names (c ∷ []) ++ kubernetes_names cs
kubernetes_names-cons c cs = elim (Bool-cases (is_kubernetes c)) [
  | inl yes_it_is ↦ rw yes_it_is
  | inr not_it ↦ rw not_it
]

module _ (N : Netbox) (K : Kube) (unmarshal : String → Reply (List String))
    (pages : HasPages N) where
  then_services-Meets :
      (c : NbCluster) (port : ℕ) (group : FhrpGroup) (step : Step)
      → Meets ⊥
          (Names (result_of step).cluster_name)
          (then_services N K unmarshal c port group step)
  then_services-Meets c port group (stop r) = Meets-pure _ refl
  then_services-Meets c port group (go_on r) =
      Meets-on_left _ (service_stage-Meets N pages c.name port group.id r)

  sync_records-Meets :
      (namespace : String) (c : NbCluster) (host : String) (port : ℕ) (group : FhrpGroup)
      (r : SyncStatusResult)
      → Meets ⊥ (Names r.cluster_name) (sync_records N K unmarshal namespace c host port group r)
  unfolding sync_records
  sync_records-Meets namespace c host port group r =
      Meets-bind _ _ (managed_stage-Meets N K unmarshal pages namespace c host group.id r)
        λ step h. rw (← h) (then_services-Meets c port group step)

  after_group-Meets :
      (namespace : String) (c : NbCluster) (host : String) (port next_id : ℕ)
      (o : Reply (FhrpGroup × Bool))
      → Meets ⊥ (λ a. Names c.name a.0) (after_group N K unmarshal namespace c host port next_id o)
  after_group-Meets namespace c host port next_id (bad e) = Meets-pure _ refl
  after_group-Meets namespace c host port next_id (good (group, created)) =
      Meets-bind _ _ (sync_records-Meets namespace c host port group _) λ r h. Meets-pure _ h

  after_endpoint-Meets :
      (namespace : String) (c : NbCluster) (next_id : ℕ) (o : Reply (String × ℕ))
      → Meets ⊥ (λ a. Names c.name a.0) (after_endpoint N K unmarshal namespace c next_id o)
  after_endpoint-Meets namespace c next_id (bad e) = Meets-pure _ refl
  after_endpoint-Meets namespace c next_id (good (host, port)) =
      Meets-bind _ _
        (Meets-attempt _ _
          (Meets-on_left _ (get_or_create_fhrp_group-Meets N pages c.name next_id)))
        λ o _. after_group-Meets namespace c host port next_id o

  round-Meets :
      (namespace : String) (c : NbCluster) (next_id : ℕ)
      (m : Exec (World N K unmarshal) (String × ℕ))
      → Meets Unit Anything m
      → Meets ⊥ (λ a. names_of a.0 ≡ c.name ∷ []) (round N K unmarshal namespace c next_id (some m))
  round-Meets namespace c next_id m t = Meets-bind _ _ (Meets-attempt _ _ t) λ o _.
      Meets-bind _ _ (after_endpoint-Meets namespace c next_id o)
        λ a h. Meets-pure _ (ap (λ (n : String). n ∷ []) h)

  sync_cluster-Meets :
      (namespace : String) (c : NbCluster) (next_id : ℕ)
      → Meets ⊥ (Reports c) (sync_cluster N K unmarshal namespace c next_id)
  unfolding sync_cluster endpoint
  sync_cluster-Meets namespace c next_id = elim (Bool-cases (c.type_slug == managed_type_slug)) [
    | inl managed ↦ rw managed (
        Meets-weaken _ (λ a h. h ∙ sym (reported c (rw managed)))
          (round-Meets namespace c next_id _
            (Meets-on_right _ (get_capi_cluster_endpoint-Meets K namespace c.name))))
    | inr other ↦ elim (Bool-cases (c.type_slug == standalone_type_slug)) [
      | inl standalone ↦
          rw (other, standalone)
            (Meets-weaken _ (λ a h. h ∙ sym (reported c (rw (other, standalone))))
              (round-Meets namespace c next_id _
                (Meets-on_left _ (get_headnode_endpoint-Meets N pages c.id))))
      | inr skipped ↦
          rw (other, skipped) (Meets-pure _ (sym (not_reported c (rw (other, skipped)))))
    ]
  ]

  sync_clusters-Meets :
      (namespace : String) (cs : List NbCluster) (next_id : ℕ)
      → Meets ⊥
          (λ rs. names_of rs ≡ kubernetes_names cs)
          (sync_clusters N K unmarshal namespace cs next_id)
  unfolding sync_clusters
  sync_clusters-Meets namespace [] next_id = Meets-pure _ refl
  sync_clusters-Meets namespace (c ∷ cs) next_id =
      Meets-bind _ _ (sync_cluster-Meets namespace c next_id) λ a h.
        Meets-bind _ _ (sync_clusters-Meets namespace cs a.1) λ rest k.
          Meets-pure _
            (map-append _ a.0 rest ∙ ap₂ (λ xs ys. xs ++ ys) h k ∙ sym (kubernetes_names-cons c cs))

  next_of_page-returns :
      (count : ℕ) (groups : List FhrpGroup) (s : N.State)
      → (0 < count → groups ≢ [])
      → (n : ℕ) × (next_of_page N (record { count = count; results = groups }) s ≡ (ok n, s))
  unfolding ◌>>=◌
  next_of_page-returns count [] s shown = elim (Bool-cases (nat_beq count 0)) [
    | inl e ↦ (1, rw e)
    | inr e ↦ absurd (shown (ground arith) refl)
  ]
  next_of_page-returns count (g ∷ gs) s shown = elim (Bool-cases (nat_beq count 0)) [
    | inl e ↦ (1, rw e)
    | inr e ↦ ((g.group_id + 1) % int32_mod, rw e)
  ]

  next_id_of :
      (s : N.State) (groups : Page FhrpGroup)
      → N.fhrp_groups_list highest_group s ≡ good groups
      → (n : ℕ) × (get_next_fhrp_group_id N s ≡ (ok n, s))
  unfolding get_next_fhrp_group_id ◌>>=◌
  next_id_of s groups e = rw e (
      next_of_page-returns groups.count groups.results s
        (subst (ReplyIn IsShown) e (pages.fhrp_groups highest_group s)))

  -- If every list that counts an object shows one, and the lists of clusters and of groups are
  -- answered, `SyncStatus` neither fails nor panics, whatever other requests fail: it returns
  -- exactly one result for each listed cluster of one of the two Kubernetes types, in the order of
  -- the list, and none for others.
  pub sync_status-reports :
      (namespace : String) (cluster_names : List String) (w : World N K unmarshal)
      {page : Page NbCluster} {groups : Page FhrpGroup}
      → N.clusters_list (cluster_params cluster_names) w.0 ≡ good page
      → N.fhrp_groups_list highest_group w.0 ≡ good groups
      → 0 < page.count
      → (rs : List SyncStatusResult) × ((sync_status N K unmarshal namespace cluster_names w).0
          ≡ ok rs)
        × (names_of rs ≡ kubernetes_names page.results)
  unfolding sync_status ◌>>=◌
  sync_status-reports namespace cluster_names w {page} {groups} e g h =
      let (n, next) = next_id_of w.0 groups g in
      let some_page : nat_beq page.count 0 ≡ false = ground arith in
      rw (e, some_page, next) (Meets-returns _ (sync_clusters-Meets namespace page.results n) w)
