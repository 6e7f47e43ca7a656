-- ===== src/Cluster/Sync/Groups.antt =====
-- sync_status.go: the rounds of `SyncStatus` and the groups of NetBox.
pub mod Refines
use machinecfg.Prelude.{
  ℕ, suc, ◌<◌, ◌≤◌, ◌+◌, ◌%◌, nat_beq, nat_eq, subst, String, ◌≡◌, refl, ◌∙◌, sym, Bool, true,
  false, Option, none, some, List, [], ◌∷◌, length, All, All-map, Exists-All, inl, inr, arith,
  Bool-cases, ltb, map, string_eq, if◌then◌else◌,
}
use machinecfg.Effect.{Reply, good, bad, Error, Exec, ◌>>=◌}
use machinecfg.Effect.Moves.{
  Moves, Preorder, keeps, anyhow, both, Moves-attempt, Moves-on_left, Moves-on_right,
}
use machinecfg.Effect.Ends.{
  Ends, Caught, Ends-pure, Ends-ask, Ends-tell, Ends-first, Ends-if, Ends-wrap, Ends-attempt,
  Ends-weaken, Ends-on_left, Ends-moved, Ends-bind, Ends-state,
}
use machinecfg.Text.{int32_mod, int32_sign}
use machinecfg.Netbox.{Netbox, Page, Param, NbCluster, FhrpGroup, FhrpGroupRequest}
use machinecfg.Kube.{Kube}
use machinecfg.Cluster.Groups.{
  Entry, NotNamed, Below, Allocates, kept, allocated, AreDistinct, Allocates-AreDistinct,
}
use machinecfg.Cluster.Reads.{get_capi_cluster_endpoint-Moves, get_headnode_endpoint-Moves}
use machinecfg.Cluster.Records.{get_or_create_fhrp_group, get_next_fhrp_group_id, highest_group}
use machinecfg.Cluster.Records.Laws.{ShowsHighest}
use machinecfg.Cluster.Records.Moves.{Writes}
use machinecfg.Cluster.Sync.Steps.{SyncStatusResult}
use machinecfg.Cluster.Sync.Moves.{endpoint-elim, sync_records-Moves}
use machinecfg.Cluster.Sync.{
  World, cluster_params, sync_status, round, after_group, after_endpoint, sync_cluster,
  sync_clusters,
}

-- What NetBox documents of its FHRP groups. `entries` are the groups that it holds: the list by a
-- name counts none only where no group has it, a request that succeeds adds its group, one that is
-- refused adds none, and the other requests of a run leave the groups alone.
pub record HoldsGroups (N : Netbox) (entries : N.State → List Entry) : Type 0 where
  pub unlisted :
      (name : String) (s : N.State) (page : Page FhrpGroup)
      → N.fhrp_groups_list (Param.name (name ∷ []) ∷ []) s ≡ good page
      → page.count ≡ 0
      → NotNamed name (entries s)
  pub created :
      (r : FhrpGroupRequest) (s : N.State) (group : FhrpGroup)
      → (N.fhrp_groups_create r s).0 ≡ good group
      → (entries (N.fhrp_groups_create r s).1 ≡ record { name = r.name; group = group } ∷ entries s)
        × (group.group_id ≡ r.group_id)
  pub refused :
      (r : FhrpGroupRequest) (s : N.State) (e : Error)
      → (N.fhrp_groups_create r s).0 ≡ bad e
      → entries (N.fhrp_groups_create r s).1 ≡ entries s
  pub others : Writes N (keeps entries)

module _ (N : Netbox) (entries : N.State → List Entry) (laws : HoldsGroups N entries)
    (start : List Entry) where
  abbrev Grows : N.State → Type 0
  Grows s = Allocates start (entries s)

  -- The groups so far are allocated, and the next number is above them.
  abbrev Ready : ℕ → N.State → Type 0
  Ready n s = Allocates start (entries s) × Below n (entries s)

  grown :
      (name : String) (n : ℕ) (gs : List Entry) (group : FhrpGroup)
      → Allocates start gs × Below n gs
      → NotNamed name gs
      → group.group_id ≡ n
      → Allocates start (record { name = name; group = group } ∷ gs)
        × Below (n + 1) (record { name = name; group = group } ∷ gs)
  grown name n gs group (a, below) fresh e = (
    allocated _ a fresh (subst (λ k. Below k gs) (sym e) below),
    (omega (arith, e), All-map (λ h. later h.group.group_id) gs below),
  )
    where
      later : (m : ℕ) → m < n → m < n + 1
      later m h = omega (arith, h)

  get_or_create-Ends :
      (name : String) (n : ℕ) (s : N.State)
      → Ready n s
      → Ends (Ready n) (λ a. Ready (if a.1 then n + 1 else n)) (get_or_create_fhrp_group N name n) s
  unfolding get_or_create_fhrp_group
  get_or_create-Ends name n s ready =
      Ends-bind {Q = λ page t. Ready n t × (page.count ≡ 0 → NotNamed name (entries t))} _ _ s
        (Ends-wrap _ _ s (Ends-ask _ s ready λ page h. (ready, laws.unlisted name s page h)))
        λ page t (ready_t, fresh).
          Ends-if (ltb 0 page.count) _ _ t
            (λ e.
              Ends-bind {Q = λ x. Ready n} _ _ t (Ends-first _ t ready_t λ x rest h. ready_t)
                λ x u ready_u. Ends-pure _ u ready_u)
            (λ e.
              Ends-bind {Q = λ x. Ready (n + 1)} _ _ t
                (Ends-wrap _ _ t (
                  Ends-tell _ t
                    (λ e' h.
                      subst (λ gs. Allocates start gs × Below n gs) (sym (laws.refused _ t e' h))
                        ready_t)
                    (λ group h.
                      let (now, number) = laws.created _ t group h in
                      subst (λ gs. Allocates start gs × Below (n + 1) gs) (sym now)
                        (grown name n (entries t) group ready_t (fresh (ground arith)) number))))
                λ x u ready_u. Ends-pure _ u ready_u)

  module _ (K : Kube) (unmarshal : String → Reply (List String)) where
    abbrev GrowsIn : World N K unmarshal → Type 0
    GrowsIn w = Grows w.0

    abbrev ReadyIn : ℕ → World N K unmarshal → Type 0
    ReadyIn n w = Ready n w.0

    -- A round uses up one number at most.
    abbrev Advances : {A : Type 0} → ℕ → A × ℕ → World N K unmarshal → Type 0
    Advances n a w = (a.1 ≤ n + 1) × ReadyIn a.1 w

    -- What leaves the groups alone keeps the run ready.
    untouched :
        {A : Type 0} (n : ℕ) (m : Exec (World N K unmarshal) A) (w : World N K unmarshal)
        → Moves (both (keeps entries) anyhow) m
        → ReadyIn n w
        → Ends GrowsIn (λ a. ReadyIn n) m w
    untouched n m w moves ready =
        Ends-weaken m w (λ v h. subst (Allocates start) (sym h.0) ready.0)
          (λ a v h. subst (λ gs. Allocates start gs × Below n gs) (sym h.0) ready)
          (Ends-moved (both (keeps entries) anyhow) m w moves)

    counted_on :
        (created : Bool) (n : ℕ) (w : World N K unmarshal)
        → n + 1 < int32_mod
        → ReadyIn (if created then n + 1 else n) w
        → ((if created then (n + 1) % int32_mod else n) ≤ n + 1)
          × ReadyIn (if created then (n + 1) % int32_mod else n) w
    counted_on true n w room ready =
        (omega arith, subst (λ k. ReadyIn k w) (omega (arith, room)) ready)
    counted_on false n w room ready = (omega arith, ready)

    after_group-Ends :
        (namespace : String) (c : NbCluster) (host : String) (port n : ℕ)
        (o : Reply (FhrpGroup × Bool)) (w : World N K unmarshal)
        → n + 1 < int32_mod
        → Caught (ReadyIn n) (λ a. ReadyIn (if a.1 then n + 1 else n)) o w
        → Ends GrowsIn (Advances n) (after_group N K unmarshal namespace c host port n o) w
    after_group-Ends namespace c host port n (bad e) w room ready =
        Ends-pure _ w (omega arith, ready)
    after_group-Ends namespace c host port n (good (group, created)) w room ready =
        Ends-bind _ _ w
          (untouched _ _ w
            (sync_records-Moves N K unmarshal (keeps entries) anyhow laws.others namespace c host
              port group _)
            ready)
          λ r v ready_v. Ends-pure _ v (counted_on created n v room ready_v)

    after_endpoint-Ends :
        (namespace : String) (c : NbCluster) (n : ℕ) (o : Reply (String × ℕ))
        (w : World N K unmarshal)
        → n + 1 < int32_mod
        → ReadyIn n w
        → Ends GrowsIn (Advances n) (after_endpoint N K unmarshal namespace c n o) w
    after_endpoint-Ends namespace c n (bad e) w room ready = Ends-pure _ w (omega arith, ready)
    after_endpoint-Ends namespace c n (good (host, port)) w room ready =
        Ends-bind _ _ w
          (Ends-attempt _ w (λ v h. h.0) (Ends-on_left _ w (get_or_create-Ends c.name n w.0 ready)))
          λ o v caught. after_group-Ends namespace c host port n o v room caught

    round-Ends :
        (namespace : String) (c : NbCluster) (n : ℕ) (m : Exec (World N K unmarshal) (String × ℕ))
        (w : World N K unmarshal)
        → n + 1 < int32_mod
        → Moves (both (keeps entries) anyhow) m
        → ReadyIn n w
        → Ends GrowsIn (Advances n) (round N K unmarshal namespace c n (some m)) w
    round-Ends namespace c n m w room moves ready =
        Ends-bind {Q = λ o. ReadyIn n} _ _ w (untouched n _ w (Moves-attempt _ moves) ready)
          λ o v ready_v.
            Ends-bind _ _ v (after_endpoint-Ends namespace c n o v room ready_v)
              λ a u h. Ends-pure _ u h

    sync_cluster-Ends :
        (namespace : String) (c : NbCluster) (n : ℕ) (w : World N K unmarshal)
        → n + 1 < int32_mod
        → ReadyIn n w
        → Ends GrowsIn (Advances n) (sync_cluster N K unmarshal namespace c n) w
    unfolding sync_cluster
    sync_cluster-Ends namespace c n w room ready =
        endpoint-elim N K unmarshal
          (λ found. Ends GrowsIn (Advances n) (round N K unmarshal namespace c n found) w) namespace
          c (Ends-pure _ w (omega arith, ready))
          (round-Ends namespace c n _ w room
            (Moves-on_right (keeps entries) anyhow _
              (get_capi_cluster_endpoint-Moves K anyhow namespace c.name))
            ready)
          (round-Ends namespace c n _ w room
            (Moves-on_left (keeps entries) anyhow _
              (get_headnode_endpoint-Moves N (keeps entries) c.id))
            ready)

    pub sync_clusters-Ends :
        (namespace : String) (cs : List NbCluster) (n : ℕ) (w : World N K unmarshal)
        → n + length cs < int32_mod
        → ReadyIn n w
        → Ends GrowsIn (λ rs. GrowsIn) (sync_clusters N K unmarshal namespace cs n) w
    unfolding sync_clusters
    sync_clusters-Ends namespace [] n w room ready = Ends-pure _ w ready.0
    sync_clusters-Ends namespace (c ∷ cs) n w room ready =
        Ends-bind _ _ w (sync_cluster-Ends namespace c n w (omega (arith, room)) ready)
          λ a v (bound, ready_v).
            Ends-bind {Q = λ rest. GrowsIn} _ _ v
              (sync_clusters-Ends namespace cs a.1 v (omega (arith, room, bound)) ready_v)
              λ rest u h. Ends-pure _ u h
