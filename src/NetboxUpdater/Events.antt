-- ===== src/NetboxUpdater/Events.antt =====
-- The controller over time: events of Hardware objects and of clusters in any order, each handled
-- whole, with any change to Kubernetes in between.
use machinecfg.Prelude.{
  ℕ, ◌<◌, ◌+◌, ◌^◌, String, ◌≡◌, refl, ap, sym, subst, Option, List, [], ◌∷◌, map, length, All,
  All-map, arith, inl, inr, string_eq, nat_eq,
}
use machinecfg.Effect.{Reply, good, bad, Error, Reply-cases, ◌>>=◌}
use machinecfg.Effect.Moves.{Moves, Preorder, anyhow, both}
use machinecfg.Text.{int32_sign}
use machinecfg.Netbox.{Netbox, Page, NbCluster}
use machinecfg.Kube.{Kube}
use machinecfg.Cluster.Groups.{
  Entry, Allocates, kept, Allocates-trans, AreDistinct, Allocates-AreDistinct,
}
use machinecfg.Cluster.Records.Laws.{ShowsHighest}
use machinecfg.Cluster.Sync.{cluster_params, sync_status}
use machinecfg.Cluster.Sync.Groups.{HoldsGroups}
use machinecfg.Cluster.Sync.Groups.Refines.{HasRoom, sync_status-Allocates}
use machinecfg.NetboxUpdater.Clusters.Moves.{reconcile_cluster-Moves}
use machinecfg.NetboxUpdater.Devices.Moves.{reconcile_hardware-Moves}
use machinecfg.NetboxUpdater.Clusters.{reconcile_cluster}
use machinecfg.NetboxUpdater.Devices.{reconcile_hardware}

-- What NetBox documents of its groups, in every state: those laws that a run needs, the numbers of
-- groups are at most 32767, and a page is shorter than that.
pub record KeepsGroups (N : Netbox) (entries : N.State → List Entry) : Type 0 where
  pub holds : HoldsGroups N entries
  pub statuses :
      (id : ℕ) (target : String) (s : N.State)
      → entries (N.devices_set_status id target s).1 ≡ entries s
  pub highest : (s : N.State) → ShowsHighest N (λ t. map (λ (e : Entry). e.group) (entries t)) s
  pub numbers : (s : N.State) → All (λ (e : Entry). e.group.group_id < 2 ^ 15) (entries s)
  pub pages :
      (names : List String) (s : N.State) (page : Page NbCluster)
      → N.clusters_list (cluster_params names) s ≡ good page
      → length page.results < 2 ^ 15

-- What reaches the controller: an object with a name changed, while the configuration has a NetBox
-- client or none; or Kubernetes is in another state.
pub data Event (Client : Type 0) (K : Kube) : Type 0 where
  hardware_changed : Option Client → String → Event Client K
  cluster_changed : Option Client → String → Event Client K
  elsewhere : K.State → Event Client K

module _ {Client : Type 0} (N : Netbox) (K : Kube) (unmarshal : String → Reply (List String))
    (namespace : String) where
  abbrev pub handle : Event Client K → N.State × K.State → N.State × K.State
  handle (hardware_changed netbox_client name) w =
      (reconcile_hardware N K netbox_client namespace name w).1
  handle (cluster_changed netbox_client name) w =
      (reconcile_cluster N K unmarshal netbox_client namespace name w).1
  handle (elsewhere k) w = (w.0, k)

  abbrev pub after : List (Event Client K) → N.State × K.State → N.State × K.State
  after [] w = w
  after (e ∷ es) w = after es (handle e w)

module _ (N : Netbox) (K : Kube) (unmarshal : String → Reply (List String))
    (entries : N.State → List Entry) (laws : KeepsGroups N entries) where
  abbrev growing : Preorder N.State
  growing = record {
    rel = λ s t. Allocates (entries s) (entries t);
    stay = λ s. kept;
    go_on = Allocates-trans;
  }

  abbrev world_growing : Preorder (N.State × K.State)
  world_growing = both growing anyhow

  same-Allocates : {gs hs : List Entry} → hs ≡ gs → Allocates gs hs
  same-Allocates {gs} e = subst (Allocates gs) (sym e) kept

  statuses-Allocates :
      (id : ℕ) (target : String) (s : N.State)
      → Allocates (entries s) (entries (N.devices_set_status id target s).1)
  statuses-Allocates id target s = same-Allocates (laws.statuses id target s)

  rooms : (n m : ℕ) → n < 2 ^ 15 → m < 2 ^ 15 → m + 1 + n < int32_sign
  rooms n m h k = omega (arith, h, k)

  has_room : (n : ℕ) (s : N.State) → n < 2 ^ 15 → HasRoom n (entries s)
  has_room n s h =
      (omega (arith, h), All-map (λ e k. rooms n e.group.group_id h k) (entries s) (laws.numbers s))

  unlisted :
      (namespace : String) (names : List String) (w : N.State × K.State) (e : Error)
      → N.clusters_list (cluster_params names) w.0 ≡ bad e
      → (sync_status N K unmarshal namespace names w).1 ≡ w
  unfolding sync_status ◌>>=◌
  unlisted namespace names w e h = rw h refl

  sync_status-Grows :
      (namespace : String) (names : List String)
      → Moves world_growing (sync_status N K unmarshal namespace names)
  sync_status-Grows namespace names = record {
    at = λ w. elim (Reply-cases (N.clusters_list (cluster_params names) w.0)) [
      | inl (page, listed) ↦ (
        sync_status-Allocates N K unmarshal entries namespace names w laws.holds (laws.highest w.0)
            listed (has_room _ w.0 (laws.pages names w.0 page listed)),
        tt,
      )
      | inr (e, failed) ↦
          (same-Allocates (ap (λ v. entries v.0) (unlisted namespace names w e failed)), tt)
    ];
  }

module _ {Client : Type 0} (N : Netbox) (K : Kube) (unmarshal : String → Reply (List String))
    (entries : N.State → List Entry) (laws : KeepsGroups N entries) (namespace : String) where
  handle-Allocates :
      (e : Event Client K) (w : N.State × K.State)
      → Allocates (entries w.0) (entries (handle N K unmarshal namespace e w).0)
  handle-Allocates (hardware_changed client name) w =
      ((reconcile_hardware-Moves N K (growing N K unmarshal entries laws)
          (statuses-Allocates N K unmarshal entries laws) namespace name client).at
        w).0
  handle-Allocates (cluster_changed client name) w =
      ((reconcile_cluster-Moves N K unmarshal (growing N K unmarshal entries laws)
          (sync_status-Grows N K unmarshal entries laws) namespace name client).at
        w).0
  handle-Allocates (elsewhere k) w = kept

  pub after-Allocates :
      (es : List (Event Client K)) (w : N.State × K.State)
      → Allocates (entries w.0) (entries (after N K unmarshal namespace es w).0)
  after-Allocates [] w = kept
  after-Allocates (e ∷ es) w = Allocates-trans (handle-Allocates e w) (after-Allocates es _)

  -- Whatever events reach the controller, in whatever order and with or without a NetBox client,
  -- and whatever else happens to Kubernetes in between, NetBox's groups change only along the
  -- specification, if NetBox keeps them as documented: groups are only added, each under a name
  -- that no group has and above all numbers; and if no two groups share a name or a number at
  -- first, no two do afterwards.
  pub after-AreDistinct :
      (es : List (Event Client K)) (w : N.State × K.State)
      → AreDistinct (entries w.0)
      → Allocates (entries w.0) (entries (after N K unmarshal namespace es w).0)
        × AreDistinct (entries (after N K unmarshal namespace es w).0)
  after-AreDistinct es w distinct =
      (after-Allocates es w, Allocates-AreDistinct (after-Allocates es w) distinct)
