-- ===== src/Examples/Groups.antt =====
-- The theorems on what a run writes, on a NetBox that holds groups under their names.
use machinecfg.Prelude.{
  ℕ, suc, ◌+◌, ◌<◌, ◌≤◌, nat_eq, String, ◌≡◌, ◌≢◌, refl, ap, sym, subst, Bool, inl, inr, Bool-cases,
  List, [], ◌∷◌, length, map, keep, All, Exists, arith, ◌==◌, string_eq, if◌then◌else◌, ◌⊎◌,
}
use text.Mathlib.TextEquality.{eq_iff}
use machinecfg.Effect.{Reply, good}
use machinecfg.Netbox.{Netbox, Page, Param, Query, FhrpGroup, FhrpGroupRequest}
use machinecfg.Cluster.Groups.{Entry, NotNamed, Allocates, AreDistinct}
use machinecfg.Cluster.Records.Laws.{ShowsHighest}
use machinecfg.Cluster.Sync.{sync_status}
use machinecfg.Cluster.Sync.Moves.{sync_status-keeps_kubernetes}
use machinecfg.Cluster.Sync.Groups.{HoldsGroups}
use machinecfg.Cluster.Sync.Groups.Refines.{sync_status-Allocates}
use machinecfg.Examples.{
  good≢bad, small_netbox, small_kube, store, three_clusters, page_of, silent_netbox,
}

abbrev pub unmarshal : String → Reply (List String)
unmarshal s = good (s ∷ [])

abbrev pub with_name : String → List Entry → List Entry
with_name name es = keep (λ e. e.name == name) es

abbrev pub groups_of : List Entry → List FhrpGroup
groups_of es = map (λ (e : Entry). e.group) es

abbrev group_page : Query → List Entry → Page FhrpGroup
group_page (Param.name (name ∷ []) ∷ []) es = page_of (groups_of (with_name name es))
group_page q es = page_of (groups_of es)

abbrev pub entry_of : FhrpGroupRequest → List Entry → Entry
entry_of r es = record {
  name = r.name;
  group = record { id = 1 + length es; group_id = r.group_id };
}

-- Its state is the list of its groups, the newest first.
abbrev group_netbox : Netbox
group_netbox = record (silent_netbox (List Entry)) {
  clusters_list = λ q s. good (page_of three_clusters);
  fhrp_groups_list = λ q s. good (group_page q s);
  fhrp_groups_create = λ r s. (good (entry_of r s).group, entry_of r s ∷ s);
}

abbrev pub two_entries : List Entry
two_entries =
    record { name = "prod"; group = record { id = 2; group_id = 12 } }
    ∷ record { name = "old"; group = record { id = 1; group_id = 5 } }
    ∷ []

good-same : {A : Type 0} {a b : A} → good a ≡ good b → a ≡ b
good-same h = cc h

pub not_listed :
    (name : String) (es : List Entry)
    → length (groups_of (with_name name es)) ≡ 0
    → NotNamed name es
not_listed name [] h = tt
not_listed name (e ∷ es) h =
    let size : Bool → ℕ =
      λ b. length (groups_of (if b then e ∷ with_name name es else with_name name es)) in
    elim (Bool-cases (e.name == name)) [
      | inl same ↦ absurd (counted (subst (λ b. size b ≡ 0) same h))
      | inr other ↦ (
        λ p. ground (arith, eq_iff e.name name, other, p),
        not_listed name es (subst (λ b. size b ≡ 0) other h),
      )
    ]
  where
    counted : {n : ℕ} → suc n ≢ 0
    counted {n} h = omega (arith, h)

group_netbox-HoldsGroups : HoldsGroups group_netbox (λ es. es)
group_netbox-HoldsGroups = record {
  unlisted = λ name s page listed none_counted.
      not_listed name s
        (subst (λ (p : Page FhrpGroup). p.count ≡ 0) (sym (good-same listed)) none_counted);
  created = λ r s group done. (
    ap (λ (g : FhrpGroup). record { name = r.name; group = g } ∷ s) (good-same done),
    ap (λ (g : FhrpGroup). g.group_id) (sym (good-same done)),
  );
  refused = λ r s e failed. absurd (good≢bad failed);
  others = record {
    prefixes = λ ip s. refl;
    ip_addresses = λ r s. refl;
    dns_names = λ id name s. refl;
    service_templates = λ r s. refl;
    services = λ r s. refl;
  };
}

shown_highest : ShowsHighest group_netbox groups_of two_entries
shown_highest page listed =
    subst
      (λ (p : Page FhrpGroup).
        ((p.count ≡ 0) × (groups_of two_entries ≡ []))
        ⊎ ((0 < p.count)
            × ((g : FhrpGroup) × (rest : List FhrpGroup) × (p.results ≡ g ∷ rest)
                × Exists (λ (h : FhrpGroup). h.group_id ≡ g.group_id) (groups_of two_entries)
                × All (λ (h : FhrpGroup). h.group_id ≤ g.group_id) (groups_of two_entries))))
      (good-same listed)
      (inr (omega arith, (_, _, refl, inl refl, (omega arith, (omega arith, tt)))))

sync_status-Allocates_example :
    Allocates two_entries
      (sync_status group_netbox small_kube unmarshal "default" [] (two_entries, [])).1.0
sync_status-Allocates_example =
    sync_status-Allocates group_netbox small_kube unmarshal (λ es. es) "default" []
      (two_entries, []) {page = page_of three_clusters} group_netbox-HoldsGroups shown_highest refl
      (omega arith, (omega arith, (omega arith, tt)))

pub two_entries-AreDistinct : AreDistinct two_entries
two_entries-AreDistinct = (
  ((λ h. ground (arith, h, eq_iff "old" "prod")), tt),
  ((λ h. omega (arith, h)), tt),
  (tt, tt, tt),
)

sync_status-keeps_kubernetes_example :
    (sync_status small_netbox small_kube unmarshal "default" [] (store, "seen" ∷ [])).1.1
    ≡ "seen" ∷ []
sync_status-keeps_kubernetes_example =
    sync_status-keeps_kubernetes small_netbox small_kube unmarshal "default" [] (store, "seen" ∷ [])
