-- ===== src/Examples/Events.antt =====
-- The theorem on the controller over time, on a NetBox that keeps its groups in every state.
use machinecfg.Prelude.{
  ℕ, ◌<◌, ◌≤◌, ◌^◌, ◌≡◌, refl, ◌∙◌, ap, sym, subst, none, some, Bool, true, false, Bool-cases, List,
  [], ◌∷◌, length, keep, All, All-map, Exists, arith, ltb, leb, string_eq, if◌then◌else◌, ◌⊎◌, inl,
  inr,
}
use machinecfg.Effect.{Error, Reply, good, bad}
use machinecfg.Netbox.{Netbox, Page, NbCluster, Param, Query, FhrpGroup, FhrpGroupRequest}
use machinecfg.Cluster.Groups.{Entry, Allocates, AreDistinct}
use machinecfg.NetboxUpdater.Events.{
  KeepsGroups, Event, hardware_changed, cluster_changed, elsewhere, after, after-AreDistinct,
}
use machinecfg.Examples.{good≢bad, silent_netbox, small_kube, three_clusters, page_of, no_answer}
use machinecfg.Examples.Groups.{
  unmarshal, with_name, groups_of, entry_of, two_entries, two_entries-AreDistinct, not_listed,
}

abbrev fits : Entry → Bool
fits e = ltb e.group.group_id (2 ^ 15)

-- The groups of which the number fits.
abbrev held : List Entry → List Entry
held es = keep fits es

abbrev best : FhrpGroup → List FhrpGroup → FhrpGroup
best g [] = g
best g (h ∷ hs) = let r = best g hs in if leb r.group_id h.group_id then h else r

abbrev top : List FhrpGroup → Page FhrpGroup
top [] = page_of []
top (g ∷ gs) = page_of (best g gs ∷ [])

abbrev listed : Query → List Entry → Page FhrpGroup
listed (Param.name (name ∷ []) ∷ []) es = page_of (groups_of (with_name name (held es)))
listed q es = top (groups_of (held es))

abbrev kept_netbox : Netbox
kept_netbox = record (silent_netbox (List Entry)) {
  clusters_list = λ q s. good (page_of three_clusters);
  fhrp_groups_list = λ q s. good (listed q s);
  fhrp_groups_create = λ r s.
      if ltb r.group_id (2 ^ 15)
      then (good (entry_of r s).group, entry_of r s ∷ s)
      else (no_answer, s);
}

held-fits : (e : Entry) (es : List Entry) → fits e ≡ true → held (e ∷ es) ≡ e ∷ held es
held-fits e es h = rw h

held-All : (es : List Entry) → All (λ (e : Entry). e.group.group_id < 2 ^ 15) (held es)
held-All [] = tt
held-All (e ∷ es) = elim (Bool-cases (fits e)) [
  | inl small ↦ rw small (ground (arith, small), held-All es)
  | inr large ↦ rw large (held-All es)
]

abbrev Tops : FhrpGroup → List FhrpGroup → Type 0
Tops r gs =
    Exists (λ (h : FhrpGroup). h.group_id ≡ r.group_id) gs
    × All (λ (h : FhrpGroup). h.group_id ≤ r.group_id) gs

at_most : (m n x : ℕ) → m ≤ n → x ≤ m → x ≤ n
at_most m n x h k = omega (arith, h, k)

newer :
    (g h : FhrpGroup) (hs : List FhrpGroup)
    → leb (best g hs).group_id h.group_id ≡ true
    → best g (h ∷ hs) ≡ h
newer g h hs e = rw e

older :
    (g h : FhrpGroup) (hs : List FhrpGroup)
    → leb (best g hs).group_id h.group_id ≡ false
    → best g (h ∷ hs) ≡ best g hs
older g h hs e = rw e

best-Tops : (g : FhrpGroup) (gs : List FhrpGroup) → Tops (best g gs) (g ∷ gs)
best-Tops g [] = (inl refl, (omega arith, tt))
best-Tops g (h ∷ hs) =
    let (found, (above_g, above)) = best-Tops g hs in
    elim (Bool-cases (leb (best g hs).group_id h.group_id)) [
      | inl less ↦
          let le : (best g hs).group_id ≤ h.group_id = ground (arith, less) in
          subst (λ r. Tops r (g ∷ h ∷ hs)) (sym (newer g h hs less))
            (
              inr (inl refl),
              (
                at_most (best g hs).group_id h.group_id g.group_id le above_g,
                (
                  omega arith,
                  All-map (λ x p. at_most (best g hs).group_id h.group_id x.group_id le p) hs above,
                ),
              ),
            )
      | inr more ↦
          subst (λ r. Tops r (g ∷ h ∷ hs)) (sym (older g h hs more))
            (
              elim found [ inl p ↦ inl p | inr q ↦ inr (inr q) ],
              (above_g, (ground (arith, more), above)),
            )
    ]

abbrev Shows : List FhrpGroup → Page FhrpGroup → Type 0
Shows gs page =
    ((page.count ≡ 0) × (gs ≡ []))
    ⊎ ((0 < page.count)
        × ((g : FhrpGroup) × (rest : List FhrpGroup) × (page.results ≡ g ∷ rest)
            × Exists (λ (h : FhrpGroup). h.group_id ≡ g.group_id) gs
            × All (λ (h : FhrpGroup). h.group_id ≤ g.group_id) gs))

top-Shows : (gs : List FhrpGroup) → Shows gs (top gs)
top-Shows [] = inl (refl, refl)
top-Shows (g ∷ gs) = inr (omega arith, (_, _, refl, (best-Tops g gs).0, (best-Tops g gs).1))

good-same : {A : Type 0} {a b : A} → good a ≡ good b → a ≡ b
good-same h = cc h

abbrev Created : FhrpGroupRequest → List Entry → Reply FhrpGroup × List Entry → Type 0
Created r s answer =
    (group : FhrpGroup)
    → answer.0 ≡ good group
    → (held answer.1 ≡ record { name = r.name; group = group } ∷ held s)
      × (group.group_id ≡ r.group_id)

kept_netbox-Created :
    (r : FhrpGroupRequest) (s : List Entry) → Created r s (kept_netbox.fhrp_groups_create r s)
kept_netbox-Created r s group = elim (Bool-cases (ltb r.group_id (2 ^ 15))) [
  | inl small ↦ rw small λ done. (
    held-fits (entry_of r s) s small
        ∙ ap (λ (g : FhrpGroup). record { name = r.name; group = g } ∷ held s) (good-same done),
    ap (λ (g : FhrpGroup). g.group_id) (sym (good-same done)),
  )
  | inr large ↦ rw large λ done. absurd (good≢bad (sym done))
]

kept_netbox-Refused :
    (r : FhrpGroupRequest) (s : List Entry) (e : Error)
    → (kept_netbox.fhrp_groups_create r s).0 ≡ bad e
    → held (kept_netbox.fhrp_groups_create r s).1 ≡ held s
kept_netbox-Refused r s e = elim (Bool-cases (ltb r.group_id (2 ^ 15))) [
  | inl small ↦ rw small λ failed. absurd (good≢bad failed)
  | inr large ↦ rw large λ failed. refl
]

kept_netbox-KeepsGroups : KeepsGroups kept_netbox held
kept_netbox-KeepsGroups = record {
  holds = record {
    unlisted = λ name s page listed none_counted.
        not_listed name (held s)
          (subst (λ (p : Page FhrpGroup). p.count ≡ 0) (sym (good-same listed)) none_counted);
    created = kept_netbox-Created;
    refused = kept_netbox-Refused;
    others = record {
      prefixes = λ ip s. refl;
      ip_addresses = λ r s. refl;
      dns_names = λ id name s. refl;
      service_templates = λ r s. refl;
      services = λ r s. refl;
    };
  };
  statuses = λ id target s. refl;
  highest = λ s page listed. subst (Shows (groups_of (held s))) (good-same listed) (top-Shows _);
  numbers = held-All;
  pages = λ names s page listed.
      subst (λ (p : Page NbCluster). length p.results < 2 ^ 15) (good-same listed) (omega arith);
}

abbrev events : List (Event Unit small_kube)
events =
    cluster_changed (some tt) "prod"
    ∷ hardware_changed none "node-1"
    ∷ elsewhere []
    ∷ cluster_changed (some tt) "edge"
    ∷ []

after-AreDistinct_example :
    Allocates two_entries
      (held (after kept_netbox small_kube unmarshal "default" events (two_entries, [])).0)
    × AreDistinct
        (held (after kept_netbox small_kube unmarshal "default" events (two_entries, [])).0)
after-AreDistinct_example =
    after-AreDistinct kept_netbox small_kube unmarshal held kept_netbox-KeepsGroups "default" events
      (two_entries, []) two_entries-AreDistinct
