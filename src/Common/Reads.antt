-- ===== src/Common/Reads.antt =====
-- pkg/common/netbox.go: what the requests for addresses, disks and devices do to NetBox.
use machinecfg.Prelude.{ℕ, String, List, [], ◌∷◌, nat_eq}
use machinecfg.Effect.{Reply, good, bad}
use machinecfg.Effect.Moves.{Moves, Preorder, reads}
use machinecfg.Netbox.{Netbox, Page, Query, Prefix, IpAddress}
use machinecfg.Common.Filters.{DeviceFilters}
use machinecfg.Common.{
  get_tagged_addresses_from_prefix, get_tagged_addresses_from_prefix_of_addr, in_first_prefix,
  addresses_of_reply, get_system_disk_inventory_items, resolve_cluster_ids, list_in_clusters,
  get_devices,
}

module _ (N : Netbox) {P : Preorder N.State} where
  addresses_of_reply-Moves : (r : Reply (Page IpAddress)) → Moves P (addresses_of_reply N r)
  addresses_of_reply-Moves (good page) = search reads depth 4
  addresses_of_reply-Moves (bad e) = search reads depth 4

  pub get_tagged_addresses_from_prefix-Moves :
      (tag : String) (prefix : Prefix) → Moves P (get_tagged_addresses_from_prefix N tag prefix)
  unfolding get_tagged_addresses_from_prefix
  get_tagged_addresses_from_prefix-Moves tag prefix =
      search (reads, addresses_of_reply-Moves) depth 12

  in_first_prefix-Moves :
      (tag : String) (r : Reply (Page Prefix)) → Moves P (in_first_prefix N tag r)
  in_first_prefix-Moves tag (good page) =
      search (reads, get_tagged_addresses_from_prefix-Moves) depth 12
  in_first_prefix-Moves tag (bad e) = search reads depth 4

  pub get_tagged_addresses_from_prefix_of_addr-Moves :
      (tag address : String) → Moves P (get_tagged_addresses_from_prefix_of_addr N tag address)
  unfolding get_tagged_addresses_from_prefix_of_addr
  get_tagged_addresses_from_prefix_of_addr-Moves tag address =
      search (reads, in_first_prefix-Moves) depth 12

  pub get_system_disk_inventory_items-Moves :
      (id : ℕ) → Moves P (get_system_disk_inventory_items N id)
  unfolding get_system_disk_inventory_items
  get_system_disk_inventory_items-Moves id = search reads depth 12

  resolve_cluster_ids-Moves : (names : List String) → Moves P (resolve_cluster_ids N names)
  unfolding resolve_cluster_ids
  resolve_cluster_ids-Moves names = search reads depth 8

  list_in_clusters-Moves : (req : Query) (ids : List ℕ) → Moves P (list_in_clusters N req ids)
  list_in_clusters-Moves req [] = search reads depth 4
  list_in_clusters-Moves req (i ∷ ids) = search reads depth 4

  pub get_devices-Moves : (filters : DeviceFilters) → Moves P (get_devices N filters)
  unfolding get_devices
  get_devices-Moves filters =
      search (reads, resolve_cluster_ids-Moves, list_in_clusters-Moves) depth 12
