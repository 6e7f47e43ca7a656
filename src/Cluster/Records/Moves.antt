-- ===== src/Cluster/Records/Moves.antt =====
-- sync_status.go: how the look-ups and creations of records move NetBox.
use machinecfg.Prelude.{ℕ, String, string_eq, nat_eq}
use machinecfg.Effect.Moves.{Moves, Preorder, anyhow, reads, Moves-tell}
use machinecfg.Netbox.{Netbox, IpAddress, IpAddressRequest, ServiceTemplateRequest, ServiceRequest}
use machinecfg.Cluster.Records.{
  get_or_create_ip_address, get_or_create_ipam_prefix, get_or_create_service,
  get_or_create_service_template, complete_ip_address,
}

-- The writes of the stages move along a preorder.
pub record Writes (N : Netbox) (P : Preorder N.State) : Type 0 where
  pub prefixes : (ip : String) (s : N.State) → P.rel s (N.prefixes_create ip s).1
  pub ip_addresses : (r : IpAddressRequest) (s : N.State) → P.rel s (N.ip_addresses_create r s).1
  pub dns_names :
      (id : ℕ) (name : String) (s : N.State) → P.rel s (N.ip_addresses_set_dns_name id name s).1
  pub service_templates :
      (r : ServiceTemplateRequest) (s : N.State) → P.rel s (N.service_templates_create r s).1
  pub services : (r : ServiceRequest) (s : N.State) → P.rel s (N.services_create r s).1

pub anyhow-Writes : (N : Netbox) → Writes N anyhow
anyhow-Writes N = record {
  prefixes = λ ip s. tt;
  ip_addresses = λ r s. tt;
  dns_names = λ id name s. tt;
  service_templates = λ r s. tt;
  services = λ r s. tt;
}

module _ (N : Netbox) (P : Preorder N.State) (W : Writes N P) where
  pub get_or_create_service_template-Moves :
      (port : ℕ) → Moves P (get_or_create_service_template N port)
  unfolding get_or_create_service_template
  get_or_create_service_template-Moves port =
      search (reads, Moves-tell, W.service_templates) depth 12

  pub get_or_create_service-Moves :
      (group_id : ℕ) (name : String) (port : ℕ)
      → Moves P (get_or_create_service N group_id name port)
  unfolding get_or_create_service
  get_or_create_service-Moves group_id name port = search (reads, Moves-tell, W.services) depth 12

  pub get_or_create_ipam_prefix-Moves : (ip : String) → Moves P (get_or_create_ipam_prefix N ip)
  unfolding get_or_create_ipam_prefix
  get_or_create_ipam_prefix-Moves ip = search (reads, Moves-tell, W.prefixes) depth 12

  complete_ip_address-Moves :
      (dns_name : String) (addr : IpAddress) → Moves P (complete_ip_address N dns_name addr)
  complete_ip_address-Moves dns_name addr = search (reads, Moves-tell, W.dns_names) depth 12

  pub get_or_create_ip_address-Moves :
      (ip : String) (group_id : ℕ) (dns_name : String)
      → Moves P (get_or_create_ip_address N ip group_id dns_name)
  unfolding get_or_create_ip_address
  get_or_create_ip_address-Moves ip group_id dns_name =
      search (reads, Moves-tell, complete_ip_address-Moves, W.ip_addresses) depth 12
