-- ===== src/Cluster/Sync/Groups/Refines.antt =====
-- sync_status.go: a whole run of `SyncStatus` against the allocation of groups.
use machinecfg.Prelude.{
  ℕ, ◌<◌, ◌≤◌, ◌+◌, nat_beq, nat_eq, subst, String, ◌≡◌, refl, ◌∙◌, sym, List, [], ◌∷◌, map, length,
  All, All-map, Exists-All, inl, inr, arith, string_eq,
}
use machinecfg.Effect.{Reply, good}
use machinecfg.Effect.Ends.{
  Ends, Ends-pure, Ends-ask, Ends-first, Ends-if, Ends-wrap, Ends-on_left, Ends-bind, Ends-state,
}
use machinecfg.Text.{int32_mod, int32_sign}
use machinecfg.Netbox.{Netbox, Page, NbCluster, FhrpGroup}
use machinecfg.Kube.{Kube}
use machinecfg.Cluster.Groups.{Entry, Below, Allocates, kept, AreDistinct, Allocates-AreDistinct}
use machinecfg.Cluster.Records.{get_next_fhrp_group_id, highest_group}
use machinecfg.Cluster.Records.Laws.{ShowsHighest}
use machinecfg.Cluster.Sync.{World, cluster_params, sync_status}
use machinecfg.Cluster.Sync.Groups.{HoldsGroups, Grows, Ready, sync_clusters-Ends}

abbrev groups_of : List Entry → List FhrpGroup
groups_of es = map (λ (e : Entry). e.group) es

-- A round for every cluster can be counted from the highest number in an int32.
abbrev pub HasRoom : ℕ → List Entry → Type 0
HasRoom rounds gs =
    (1 + rounds < int32_sign) × All (λ (e : Entry). e.group.group_id + 1 + rounds < int32_sign) gs

module _ (P : FhrpGroup → Type 0) where
  All-entries : (es : List Entry) → All P (groups_of es) → All (λ (e : Entry). P e.group) es
  All-entries [] h = tt
  All-entries (e ∷ es) (p, h) = (p, All-entries es h)

  All-groups : (es : List Entry) → All (λ (e : Entry). P e.group) es → All P (groups_of es)
  All-groups [] h = tt
  All-groups (e ∷ es) (p, h) = (p, All-groups es h)

-- What the page of the highest number tells of the groups.
abbrev Tells : ℕ → List Entry → Page FhrpGroup → Type 0
Tells rounds gs page =
    (page.count ≡ 0 → gs ≡ [])
    × ((g : FhrpGroup) (rest : List FhrpGroup)
        → 0 < page.count
        → page.results ≡ g ∷ rest
        → (g.group_id + 1 + rounds < int32_sign)
          × All (λ (e : Entry). e.group.group_id ≤ g.group_id) gs)

module _ (N : Netbox) (entries : N.State → List Entry) where
  groups_empty : (es : List Entry) → groups_of es ≡ [] → es ≡ []
  groups_empty [] h = refl
  groups_empty (e ∷ es) h = cc h

  first-same : {g h : FhrpGroup} {xs ys : List FhrpGroup} → g ∷ xs ≡ h ∷ ys → g ≡ h
  first-same e = cc e

  highest-Tells :
      (s : N.State) (rounds : ℕ) (page : Page FhrpGroup)
      → ShowsHighest N (λ t. groups_of (entries t)) s
      → HasRoom rounds (entries s)
      → N.fhrp_groups_list highest_group s ≡ good page
      → Tells rounds (entries s) page
  highest-Tells s rounds page highest (least, room) listed = elim (highest page listed) [
    | inl (none_counted, nothing) ↦ (
      λ e. groups_empty (entries s) nothing,
      λ g rest e h. absurd (omega (arith, none_counted, e)),
    )
    | inr (counted, (g, rest, shown, held, above)) ↦ (
      λ e. absurd (omega (arith, counted, e)),
      λ x more e h.
          subst
            (λ (y : FhrpGroup).
              (y.group_id + 1 + rounds < int32_sign)
              × All (λ (e : Entry). e.group.group_id ≤ y.group_id) (entries s))
            (first-same (sym shown ∙ h))
            (
              (let (k, is_g, k_room) =
                    Exists-All (groups_of (entries s)) held (All-groups _ (entries s) room) in
                  omega (arith, is_g, k_room)),
              All-entries _ (entries s) above,
            ),
    )
  ]

  next_id-Ends :
      (start : List Entry) (s : N.State) (rounds : ℕ)
      → ShowsHighest N (λ t. groups_of (entries t)) s
      → HasRoom rounds (entries s)
      → (laws : HoldsGroups N entries) → Allocates start (entries s)
      → Ends
          (Grows N entries laws start)
          (λ n t. (n + rounds < int32_mod) × Ready N entries laws start n t)
          (get_next_fhrp_group_id N)
          s
  unfolding get_next_fhrp_group_id
  next_id-Ends start s rounds highest room laws so_far =
      Ends-bind {Q = λ page t. Allocates start (entries t) × Tells rounds (entries t) page} _ _ s
        (Ends-wrap _ _ s
          (Ends-ask _ s so_far λ page h. (so_far, highest-Tells s rounds page highest room h)))
        λ page t (grows, tells).
          Ends-if (nat_beq page.count 0) _ _ t
            (λ e.
              Ends-pure _ t
                (omega (arith, room.0), (grows, subst (Below 1) (sym (tells.0 (ground arith))) tt)))
            (λ e.
              Ends-bind
                {Q = λ x u.
                  (x.group_id + 1 + rounds < int32_sign)
                  × Ready N entries laws start (x.group_id + 1) u}
                _ _ t
                (Ends-first _ t grows λ x rest h.
                  let (x_room, above) = tells.1 x rest (ground arith) h in
                  (
                    x_room,
                    (grows, All-map (λ k. below k.group.group_id x.group_id) (entries t) above),
                  ))
                λ x u (x_room, ready). Ends-pure _ u (
                  omega (arith, x_room),
                  subst (λ n. Ready N entries laws start n u) (omega (arith, x_room)) ready,
                ))
    where
      below : (m n : ℕ) → m ≤ n → m < n + 1
      below m n h = omega (arith, h)

good-same : {A : Type 0} {a b : A} → good a ≡ good b → a ≡ b
good-same h = cc h

-- If NetBox keeps its groups as documented, the first page shows a group of the highest number, and
-- a round for every listed cluster can be counted from it in an int32, then `SyncStatus`, however
-- it ends and whatever other requests fail, takes the groups of NetBox only along the
-- specification: it adds groups, each under a name that no group has and above all numbers.
pub sync_status-Allocates :
    (N : Netbox) (K : Kube) (unmarshal : String → Reply (List String))
    (entries : N.State → List Entry) (namespace : String) (cluster_names : List String)
    (w : World N K unmarshal) {page : Page NbCluster}
    → HoldsGroups N entries
    → ShowsHighest N (λ s. map (λ (e : Entry). e.group) (entries s)) w.0
    → N.clusters_list (cluster_params cluster_names) w.0 ≡ good page
    → HasRoom (length page.results) (entries w.0)
    → Allocates (entries w.0) (entries (sync_status N K unmarshal namespace cluster_names w).1.0)
unfolding sync_status
sync_status-Allocates N K unmarshal entries namespace cluster_names w {page} laws highest listed
      room =
    let Listed : Page NbCluster → N.State → Type 0 = λ p s.
      ShowsHighest N (λ t. groups_of (entries t)) s
      × HasRoom (length p.results) (entries s)
      × Allocates (entries w.0) (entries s) in
    Ends-state (
      Ends-bind {Q = λ p v. Listed p v.0} _ _ w
        (Ends-wrap _ _ w (
          Ends-on_left {Q = Listed} _ w (
            Ends-ask _ w.0 kept λ p h. (
              highest,
              subst (λ (q : Page NbCluster). HasRoom (length q.results) (entries w.0))
                  (good-same (sym listed ∙ h)) room,
              kept,
            ))))
        λ p v (highest_v, room_v, so_far).
          Ends-if (nat_beq p.count 0) _ _ v (λ e. Ends-pure _ v so_far)
            (λ e.
              Ends-bind _ _ v
                (Ends-wrap _ _ v (
                  Ends-on_left _ v (
                    next_id-Ends N entries (entries w.0) v.0 (length p.results) highest_v room_v
                      laws so_far)))
                λ n u (n_room, ready).
                  sync_clusters-Ends N entries laws (entries w.0) K unmarshal namespace p.results n
                    u n_room ready))

-- If NetBox keeps its groups as documented, the first page shows a group of the highest number, and
-- a round for every listed cluster can be counted from it in an int32, then a run of `SyncStatus`
-- that starts with groups of which no two share a name or a number also leaves them so, however
-- it ends.
pub sync_status-AreDistinct :
    (N : Netbox) (K : Kube) (unmarshal : String → Reply (List String))
    (entries : N.State → List Entry) (namespace : String) (cluster_names : List String)
    (w : World N K unmarshal) {page : Page NbCluster}
    → HoldsGroups N entries
    → ShowsHighest N (λ s. map (λ (e : Entry). e.group) (entries s)) w.0
    → N.clusters_list (cluster_params cluster_names) w.0 ≡ good page
    → HasRoom (length page.results) (entries w.0)
    → AreDistinct (entries w.0)
    → AreDistinct (entries (sync_status N K unmarshal namespace cluster_names w).1.0)
sync_status-AreDistinct N K unmarshal entries namespace cluster_names w laws highest listed room =
    Allocates-AreDistinct (
      sync_status-Allocates N K unmarshal entries namespace cluster_names w laws highest listed
        room)
