-- ===== src/Cluster/Reads.antt =====
-- pkg/cluster: what the look-ups of endpoints do to NetBox and Kubernetes.
use machinecfg.Prelude.{ℕ, String, string_eq, nat_eq}
use machinecfg.Effect.Moves.{Moves, Preorder, reads}
use machinecfg.Netbox.{Netbox}
use machinecfg.Kube.{Kube}
use machinecfg.Cluster.Endpoint.{
  get_capi_cluster_endpoint, get_headnode_endpoint, get_headnode_vm_ip, bare_address,
}
use machinecfg.Cluster.Records.{get_next_fhrp_group_id, get_dns_name_from_prefix}

module _ (K : Kube) (P : Preorder K.State) where
  pub get_capi_cluster_endpoint-Moves :
      (namespace name : String) → Moves P (get_capi_cluster_endpoint K namespace name)
  unfolding get_capi_cluster_endpoint
  get_capi_cluster_endpoint-Moves namespace name = search reads depth 12

module _ (N : Netbox) (P : Preorder N.State) where
  bare_address-Moves : (what addr : String) → Moves P (bare_address N what addr)
  unfolding bare_address
  bare_address-Moves what addr = search reads depth 12

  get_headnode_vm_ip-Moves : (id : ℕ) → Moves P (get_headnode_vm_ip N id)
  unfolding get_headnode_vm_ip
  get_headnode_vm_ip-Moves id = search (reads, bare_address-Moves) depth 12

  pub get_headnode_endpoint-Moves : (id : ℕ) → Moves P (get_headnode_endpoint N id)
  unfolding get_headnode_endpoint
  get_headnode_endpoint-Moves id =
      search (reads, bare_address-Moves, get_headnode_vm_ip-Moves) depth 12

  pub get_next_fhrp_group_id-Moves : Moves P (get_next_fhrp_group_id N)
  unfolding get_next_fhrp_group_id
  get_next_fhrp_group_id-Moves = search reads depth 12

  pub get_dns_name_from_prefix-Moves :
      (ip name : String) → Moves P (get_dns_name_from_prefix N ip name)
  unfolding get_dns_name_from_prefix
  get_dns_name_from_prefix-Moves ip name = search reads depth 12
