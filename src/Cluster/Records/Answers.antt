-- ===== src/Cluster/Records/Answers.antt =====
-- sync_status.go: how the look-ups and creations of records end.
use machinecfg.Prelude.{ℕ, String, ◌&&◌, arith, ltb, nat_beq, string_eq}
use machinecfg.Effect.{Reply}
use machinecfg.Effect.Meets.{
  Meets, Meets-pure, Meets-if, Meets-wrap, Meets-raise, Meets-ask, Meets-attempt, Meets-bind,
  ReplyIn, Anything, ask-Meets, tell-Meets,
}
use machinecfg.Netbox.{Netbox, Page}
use machinecfg.Netbox.Pages.{first-Meets, IsShown, HasPages}
use machinecfg.Cluster.Endpoint.{get_headnode_vm_ip, get_headnode_endpoint, bare_address}
use machinecfg.Netbox.FindOrCreate.{find_or_create}
use machinecfg.Cluster.Records.{
  is_hostname, get_dns_name, get_next_fhrp_group_id, get_or_create_fhrp_group,
  get_or_create_service_template, get_or_create_service, get_dns_name_from_prefix,
  get_or_create_ip_address, get_or_create_ipam_prefix,
}

module _ {S A : Type 0} where
  pub find_or_create-Meets :
      (f g : String → String) (list : S → Reply (Page A)) (create : S → Reply A × S)
      → ((s : S) → ReplyIn IsShown (list s))
      → Meets Unit Anything (find_or_create f g list create)
  find_or_create-Meets f g list create h =
      Meets-bind _ _ (Meets-wrap f _ (Meets-ask list h)) λ page shown.
        Meets-if (ltb 0 page.count) _ _
          (λ e. Meets-bind _ _ (first-Meets page (ground arith) shown) λ x _. Meets-pure _ tt)
          (λ e. Meets-bind _ _ (Meets-wrap g _ (tell-Meets create)) λ x _. Meets-pure _ tt)

module _ (N : Netbox) (pages : HasPages N) where
  pub get_next_fhrp_group_id-Meets : Meets Unit Anything (get_next_fhrp_group_id N)
  unfolding get_next_fhrp_group_id
  get_next_fhrp_group_id-Meets =
      Meets-bind _ _ (Meets-wrap _ _ (Meets-ask _ (pages.fhrp_groups _))) λ page shown.
        Meets-if (nat_beq page.count 0) _ _ (λ e. Meets-pure _ tt)
          (λ e. Meets-bind _ _ (first-Meets page (ground arith) shown) λ x _. Meets-pure _ tt)

  pub get_or_create_fhrp_group-Meets :
      (name : String) (group_id : ℕ)
      → Meets Unit Anything (get_or_create_fhrp_group N name group_id)
  unfolding get_or_create_fhrp_group
  get_or_create_fhrp_group-Meets name group_id = find_or_create-Meets _ _ _ _ (pages.fhrp_groups _)

  pub get_or_create_service_template-Meets :
      (port : ℕ) → Meets Unit Anything (get_or_create_service_template N port)
  unfolding get_or_create_service_template
  get_or_create_service_template-Meets port =
      find_or_create-Meets _ _ _ _ (pages.service_templates _)

  pub get_or_create_service-Meets :
      (group_id : ℕ) (name : String) (port : ℕ)
      → Meets Unit Anything (get_or_create_service N group_id name port)
  unfolding get_or_create_service
  get_or_create_service-Meets group_id name port = find_or_create-Meets _ _ _ _ (pages.services _)

  pub get_dns_name_from_prefix-Meets :
      (ip name : String) → Meets Unit Anything (get_dns_name_from_prefix N ip name)
  unfolding get_dns_name_from_prefix
  get_dns_name_from_prefix-Meets ip name =
      Meets-bind _ _ (Meets-wrap _ _ (Meets-ask _ (pages.prefixes _))) λ page shown.
        Meets-if (nat_beq page.count 0) _ _ (λ e. Meets-pure _ tt)
          (λ e. Meets-bind _ _ (first-Meets page (ground arith) shown) λ x _. Meets-pure _ tt)

  pub get_or_create_ip_address-Meets :
      (ip : String) (group_id : ℕ) (name : String)
      → Meets Unit Anything (get_or_create_ip_address N ip group_id name)
  unfolding get_or_create_ip_address
  get_or_create_ip_address-Meets ip group_id name =
      Meets-bind _ _ (Meets-wrap _ _ (Meets-ask _ (pages.ip_addresses _))) λ page shown.
        Meets-if (ltb 0 page.count) _ _
          (λ e. Meets-bind _ _ (first-Meets page (ground arith) shown) λ addr _.
            Meets-if (is_hostname name && string_eq.beq (get_dns_name addr) "") _ _
              (λ _. Meets-bind _ _ (Meets-attempt Unit _ (tell-Meets _)) λ r _. Meets-pure _ tt)
              (λ _. Meets-pure _ tt))
          (λ e. Meets-bind _ _ (Meets-wrap _ _ (tell-Meets _)) λ x _. Meets-pure _ tt)

  pub get_or_create_ipam_prefix-Meets :
      (ip : String) → Meets Unit Anything (get_or_create_ipam_prefix N ip)
  unfolding get_or_create_ipam_prefix
  get_or_create_ipam_prefix-Meets ip = Meets-bind _ _ (Meets-wrap _ _ (ask-Meets _)) λ page _.
      Meets-if (ltb 0 page.count) _ _ (λ e. Meets-pure _ tt)
        (λ e. Meets-bind _ _ (Meets-wrap _ _ (tell-Meets _)) λ x _. Meets-pure _ tt)

  bare_address-Meets : (what addr : String) → Meets Unit Anything (bare_address N what addr)
  unfolding bare_address
  bare_address-Meets what addr =
      Meets-if (string_eq.beq addr "") _ _ (λ _. Meets-raise _) (λ _. Meets-pure _ tt)

  get_headnode_vm_ip-Meets : (id : ℕ) → Meets Unit Anything (get_headnode_vm_ip N id)
  unfolding get_headnode_vm_ip
  get_headnode_vm_ip-Meets id =
      Meets-bind _ _ (Meets-wrap _ _ (Meets-ask _ (pages.virtual_machines _))) λ page shown.
        Meets-if (nat_beq page.count 0) _ _ (λ e. Meets-raise _)
          (λ e.
            Meets-bind _ _ (first-Meets page (ground arith) shown) λ vm _. bare_address-Meets _ _)

  pub get_headnode_endpoint-Meets : (id : ℕ) → Meets Unit Anything (get_headnode_endpoint N id)
  unfolding get_headnode_endpoint
  get_headnode_endpoint-Meets id =
      Meets-bind _ _ (Meets-wrap _ _ (Meets-ask _ (pages.devices _))) λ page shown.
        Meets-if (nat_beq page.count 0) _ _
          (λ e. Meets-bind _ _ (get_headnode_vm_ip-Meets id) λ host _. Meets-pure _ tt)
          (λ e.
            Meets-bind _ _ (first-Meets page (ground arith) shown)
              λ device _. Meets-bind _ _ (bare_address-Meets _ _) λ host _. Meets-pure _ tt)
