-- ===== src/Common.antt =====
-- pkg/common: the device filters, and the requests that the other packages share.
pub mod Filters
pub mod Laws
pub mod Answers
pub mod Reads
use machinecfg.Prelude.{
  ℕ, zero, String, ◌<>◌, Bool, true, false, not, Option, none, some, List, [], ◌∷◌, ◌++◌, map, ◌==◌,
  nat_eq, string_eq, if◌then◌else◌,
}
use machinecfg.Effect.{Exec, Reply, good, bad, pure, ask, crash, first, attempt, wrap, ◌>>=◌}
use machinecfg.Text.{before, to_lower, itoa}
use machinecfg.Netbox.{
  Netbox, Page, Query, Param, Device, Record, Prefix, IpAddress, NbCluster, Vlan,
}
use machinecfg.Common.Filters.{DeviceFilters, filter_params, base_params, given}

module _ (N : Netbox) where
  abbrev ids_of : List NbCluster → List ℕ
  ids_of clusters = map (λ c. c.id) clusters

  unfoldable pub resolve_cluster_ids : List String → Exec N.State (List ℕ)
  resolve_cluster_ids cluster_names = do
    result ←
        wrap (λ t. "cannot resolve cluster names to IDs: " <> t)
          (ask (N.clusters_list (Param.name cluster_names ∷ [])))
    pure (ids_of result.results)

  -- The request, once the names of the clusters are resolved: with none of them no request is made.
  abbrev list_in_clusters : Query → List ℕ → Exec N.State (Page Device)
  list_in_clusters req [] = pure (record { count = 0; results = [] })
  list_in_clusters req (i ∷ ids) = ask (N.devices_list (req ++ Param.cluster_id (i ∷ ids) ∷ []))

  unfoldable pub get_devices : DeviceFilters → Exec N.State (Page Device)
  unfolding resolve_cluster_ids
  get_devices filters =
      let req = base_params filters ++ filter_params filters in
      if given filters.clusters
      then (do cluster_ids ← resolve_cluster_ids filters.clusters; list_in_clusters req cluster_ids)
      else ask (N.devices_list req)

  unfoldable pub get_system_disk_inventory_items : ℕ → Exec N.State (List Record)
  get_system_disk_inventory_items device_id = do
    result ←
        wrap (λ t. "cannot list inventory items for device " <> itoa device_id <> ": " <> t)
          (ask (
            N.inventory_items_list
              (Param.device_id (device_id ∷ []) ∷ Param.role ("system-disk" ∷ []) ∷ [])))
    pure result.results

  abbrev addresses_of_reply : Reply (Page IpAddress) → Exec N.State (List IpAddress)
  addresses_of_reply (good page) = pure page.results
  addresses_of_reply (bad e) = pure []

  -- The addresses with a tag in a prefix; a failed request gives none.
  unfoldable pub get_tagged_addresses_from_prefix : String → Prefix → Exec N.State (List IpAddress)
  get_tagged_addresses_from_prefix tag prefix = do
    addresses ←
        attempt (
          ask
            (N.ip_addresses_list (Param.parent (prefix.display ∷ []) ∷ Param.tag (tag ∷ []) ∷ [])))
    addresses_of_reply addresses

  -- A failed request leaves a nil page, of which the count is read next.
  abbrev in_first_prefix : String → Reply (Page Prefix) → Exec N.State (List IpAddress)
  in_first_prefix tag (bad e) = crash
  in_first_prefix tag (good prefixes) =
      if prefixes.count == 0
      then pure []
      else do prefix ← first prefixes.results; get_tagged_addresses_from_prefix tag prefix

  unfoldable pub get_tagged_addresses_from_prefix_of_addr :
      String → String → Exec N.State (List IpAddress)
  unfolding get_tagged_addresses_from_prefix
  get_tagged_addresses_from_prefix_of_addr tag address = do
    prefixes ← attempt (ask (N.prefixes_list (Param.contains address ∷ [])))
    in_first_prefix tag prefixes

-- The loop sets the answer at each tag that matches and never clears it.
has_tag_from : Bool → List String → Bool
has_tag_from answer [] = answer
has_tag_from answer (tag ∷ tags) =
    has_tag_from (if to_lower tag == "dhcp" then true else answer) tags

unfoldable pub has_dhcp_tag : List String → Bool
unfolding has_tag_from to_lower
has_dhcp_tag tags = has_tag_from false tags

vlan_in_from : Bool → ℕ → List Vlan → Bool
vlan_in_from result vlan_id [] = result
vlan_in_from result vlan_id (v ∷ vlans) =
    vlan_in_from (if v.vid == vlan_id then true else result) vlan_id vlans

unfoldable pub is_vlan_id_in_vlan_list : ℕ → List Vlan → Bool
unfolding vlan_in_from
is_vlan_id_in_vlan_list vlan_id vlans = vlan_in_from false vlan_id vlans

unfoldable pub from_ip_addresses_to_strings : List IpAddress → List String
unfolding before
from_ip_addresses_to_strings [] = []
from_ip_addresses_to_strings (addr ∷ addresses) =
    before b'/' addr.address ∷ from_ip_addresses_to_strings addresses
