-- ===== src/Examples/Clusters.antt =====
-- The theorems on clusters, on the small NetBox.
use machinecfg.Prelude.{
  ℕ, suc, String, ◌≡◌, refl, ◌⊎◌, inl, inr, true, false, List, [], ◌∷◌, length, arith, ◌<◌, ◌≤◌,
  subst, Exists, All, ap,
}
use machinecfg.Effect.{Reply, good, ok, ◌>>=◌}
use machinecfg.Netbox.{Param, Page, FhrpGroup}
use machinecfg.Cluster.Records.{get_or_create_fhrp_group, get_next_fhrp_group_id}
use machinecfg.Netbox.FindOrCreate.Laws.{ShowsCreated}
use machinecfg.Cluster.Records.Laws.{
  ShowsHighest, fhrp_group_request, get_or_create_fhrp_group-twice, get_next_fhrp_group_id-fresh,
}
use machinecfg.Cluster.Show.{ClusterRow, show_rows}
use machinecfg.Cluster.Show.Laws.{AreRows, show_rows-AreRows}
use machinecfg.Cluster.Sync.{sync_status}
use machinecfg.Cluster.Sync.Steps.{SyncStatusResult}
use machinecfg.Cluster.Sync.Laws.{names_of, sync_status-reports}
use machinecfg.Examples.{
  Store, small_netbox, small_netbox-HasPages, small_kube, store, three_clusters, two_groups,
  page_of,
}

abbrev unmarshal : String → Reply (List String)
unmarshal s = good (s ∷ [])

sync_status-reports_example :
    (rs : List SyncStatusResult) × ((sync_status small_netbox small_kube unmarshal "default" []
        (store, [])).0
      ≡ ok rs)
    × (names_of rs ≡ "prod" ∷ "edge" ∷ [])
sync_status-reports_example =
    sync_status-reports small_netbox small_kube unmarshal small_netbox-HasPages "default" []
      (store, []) {page = page_of three_clusters} {groups = page_of two_groups} refl refl
      (omega arith)

good-injective : {A : Type 0} {a b : A} → good a ≡ good b → a ≡ b
good-injective h = cc h

created-Shown :
    (name : String) (id : ℕ)
    → ShowsCreated
        (small_netbox.fhrp_groups_list (Param.name (name ∷ []) ∷ []))
        (small_netbox.fhrp_groups_create (fhrp_group_request small_netbox name id))
created-Shown name id s page a listed empty created = (
  length s.groups,
  s.groups,
  ap (λ (x : FhrpGroup). good (record { count = suc (length s.groups); results = x ∷ s.groups }))
      (good-injective created),
)

abbrev no_groups : Store
no_groups = record store { groups = [] }

first_group :
    (get_or_create_fhrp_group small_netbox "prod" 1 no_groups).0
    ≡ ok (record { id = 1; group_id = 1 }, true)
unfolding get_or_create_fhrp_group ◌>>=◌
first_group = refl

get_or_create_fhrp_group-twice_example :
    get_or_create_fhrp_group small_netbox "prod" 2
      (get_or_create_fhrp_group small_netbox "prod" 1 no_groups).1
    ≡ (
      ok (record { id = 1; group_id = 1 }, false),
      (get_or_create_fhrp_group small_netbox "prod" 1 no_groups).1,
    )
get_or_create_fhrp_group-twice_example =
    get_or_create_fhrp_group-twice small_netbox "prod" 1 2 no_groups
      (record { id = 1; group_id = 1 }) true (created-Shown "prod" 1) first_group

shown_highest : ShowsHighest small_netbox (λ s. s.groups) store
shown_highest page listed =
    subst
      (λ (p : Page FhrpGroup).
        ((p.count ≡ 0) × (two_groups ≡ []))
        ⊎ ((0 < p.count)
            × ((g : FhrpGroup) × (rest : List FhrpGroup) × (p.results ≡ g ∷ rest)
                × Exists (λ (h : FhrpGroup). h.group_id ≡ g.group_id) two_groups
                × All (λ (h : FhrpGroup). h.group_id ≤ g.group_id) two_groups)))
      (good-injective listed)
      (inr (omega arith, (_, _, refl, inl refl, (omega arith, (omega arith, tt)))))

next_is_13 : (get_next_fhrp_group_id small_netbox store).0 ≡ ok 13
unfolding get_next_fhrp_group_id ◌>>=◌
next_is_13 = refl

get_next_fhrp_group_id-fresh_example : All (λ (g : FhrpGroup). g.group_id < 13) two_groups
get_next_fhrp_group_id-fresh_example =
    get_next_fhrp_group_id-fresh small_netbox (λ s. s.groups) store 13 shown_highest
      (omega arith, (omega arith, tt)) next_is_13

show_rows-AreRows_example :
    (rows : List ClusterRow) × ((show_rows small_netbox small_kube "default" three_clusters
        (store, [])).0
      ≡ ok rows)
    × AreRows three_clusters rows
show_rows-AreRows_example =
    show_rows-AreRows small_netbox small_kube "default" three_clusters (store, [])
