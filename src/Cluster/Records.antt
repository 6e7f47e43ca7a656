-- ===== src/Cluster/Records.antt =====
-- sync_status.go and tailscale.go: the records of NetBox that a run looks up, creates or completes.
pub mod Answers
pub mod Moves
pub mod Laws
use machinecfg.Prelude.{
  ℕ, zero, suc, ◌+◌, ◌-◌, ◌%◌, ◌^◌, String, ◌<>◌, Bool, true, false, not, ◌&&◌, Option, none, some,
  List, [], ◌∷◌, ltb, lookup, starts_with, ◌==◌, nat_eq, string_eq, if◌then◌else◌,
}
use machinecfg.Effect.{Exec, Reply, good, bad, pure, ask, tell, first, attempt, wrap, ◌>>=◌}
use machinecfg.Text.{contains, fields, itoa, quoted, int32_mod, int32_sign}
use machinecfg.Net.{parse_ip}
use machinecfg.Netbox.{
  Netbox, Page, Param, Any, nil, text, opaque, IpAddress, IpAddressRequest, FhrpGroup, Record,
}
use machinecfg.Netbox.FindOrCreate.{find_or_create}
use machinecfg.Cluster.Names.{service_template_name}

unfoldable pub is_hostname : String → Bool
is_hostname s = not (s == "") && (elim (parse_ip s) [ none ↦ true | some bytes ↦ false ])

-- The conversion of an int32 to an int64.
unfoldable pub to_int64 : ℕ → ℕ
to_int64 n = if ltb n int32_sign then n else n + (2 ^ 64 - int32_mod)

abbrev pub get_dns_name : IpAddress → String
get_dns_name addr = elim addr.dns_name [ none ↦ "" | some name ↦ name ]

-- The first domain that is not for routing only.
unfoldable pub usable_domain : List String → Option String
usable_domain [] = none
usable_domain (domain ∷ domains) =
    if not (starts_with domain "~") then some domain else usable_domain domains

-- `cf["Domains"].(string)`, the empty text where there is none
abbrev pub domains_text : Option Any → String
domains_text (some (text s)) = s
domains_text (some nil) = ""
domains_text (some (opaque s t)) = ""
domains_text none = ""

abbrev completed : IpAddress → Reply IpAddress → IpAddress × Bool
completed addr (good updated) = (updated, true)
completed addr (bad e) = (addr, false)

-- The request for the group with the highest number.
abbrev pub highest_group : List Param
highest_group = Param.limit 1 ∷ Param.ordering "-group_id" ∷ []

module _ (N : Netbox) where
  abbrev pub next_of_page : Page FhrpGroup → Exec N.State ℕ
  next_of_page page =
      if page.count == 0
      then pure 1
      else (do group ← first page.results; pure ((group.group_id + 1) % int32_mod))

  unfoldable pub get_next_fhrp_group_id : Exec N.State ℕ
  get_next_fhrp_group_id = do
    result ← wrap (λ t. "cannot list FHRP groups: " <> t) (ask (N.fhrp_groups_list highest_group))
    next_of_page result

  unfoldable pub get_or_create_fhrp_group : String → ℕ → Exec N.State (FhrpGroup × Bool)
  get_or_create_fhrp_group name group_id =
      find_or_create (λ t. "cannot list FHRP groups by name " <> quoted name <> ": " <> t)
        (λ t. "cannot create FHRP group " <> quoted name <> ": " <> t)
        (N.fhrp_groups_list (Param.name (name ∷ []) ∷ []))
        (N.fhrp_groups_create (record { protocol = "other"; group_id = group_id; name = name }))

  unfoldable pub get_or_create_service_template : ℕ → Exec N.State (Record × Bool)
  get_or_create_service_template port =
      find_or_create (λ t. "cannot list ServiceTemplates: " <> t)
        (λ t. "cannot create ServiceTemplate: " <> t)
        (N.service_templates_list (Param.name (service_template_name ∷ []) ∷ []))
        (N.service_templates_create
          (record { name = service_template_name; protocol = "tcp"; ports = port ∷ [] }))

  abbrev pub service_description : String → String
  service_description cluster_name = "Kubernetes endpoint for " <> cluster_name

  unfoldable pub get_or_create_service : ℕ → String → ℕ → Exec N.State (Record × Bool)
  unfolding to_int64
  get_or_create_service fhrp_group_id cluster_name port =
      find_or_create (λ t. "cannot list Services: " <> t)
        (λ t. "cannot create Service for cluster " <> quoted cluster_name <> ": " <> t)
        (N.services_list (Param.description (service_description cluster_name ∷ []) ∷ []))
        (N.services_create (record {
          parent_object_type = "ipam.fhrpgroup";
          parent_object_id = to_int64 fhrp_group_id;
          name = service_template_name;
          protocol = "tcp";
          ports = port ∷ [];
          description = service_description cluster_name;
        }))

  unfoldable pub get_dns_name_from_prefix : String → String → Exec N.State String
  unfolding usable_domain fields
  get_dns_name_from_prefix ip cluster_name = do
    result ←
        wrap (λ t. "cannot query NetBox prefixes for " <> ip <> ": " <> t)
          (ask (
            N.prefixes_list
              (Param.contains ip ∷ Param.ordering "-mask_length" ∷ Param.limit 1 ∷ [])))
    if result.count == 0 then pure "" else (do
      prefix ← first result.results
      pure (elim (usable_domain (fields (domains_text (lookup "Domains" prefix.custom_fields)))) [
        | none ↦ ""
        | some domain ↦ cluster_name <> "." <> domain
      ]))

  -- An address that exists: its DNS name is set if it has none. A failed request is only logged.
  abbrev complete_ip_address : String → IpAddress → Exec N.State (IpAddress × Bool)
  complete_ip_address dns_name addr =
      if is_hostname dns_name && get_dns_name addr == ""
      then (do
        updated ← attempt (tell (N.ip_addresses_set_dns_name addr.id dns_name))
        pure (completed addr updated))
      else pure (addr, false)

  abbrev pub with_mask : String → String
  with_mask ip = if contains 47 ip then ip else ip <> "/32"

  abbrev pub ip_address_request : String → ℕ → String → IpAddressRequest
  ip_address_request ip fhrp_group_id dns_name = record {
    address = with_mask ip;
    status = "active";
    assigned_object_type = "ipam.fhrpgroup";
    assigned_object_id = to_int64 fhrp_group_id;
    dns_name = if is_hostname dns_name then some dns_name else none;
  }

  unfoldable pub get_or_create_ip_address : String → ℕ → String → Exec N.State (IpAddress × Bool)
  unfolding is_hostname contains to_int64
  get_or_create_ip_address ip fhrp_group_id dns_name = do
    existing ←
        wrap (λ t. "cannot query NetBox IPAM for " <> ip <> ": " <> t)
          (ask (N.ip_addresses_list (Param.q ip ∷ [])))
    if ltb 0 existing.count
        then (do addr ← first existing.results; complete_ip_address dns_name addr)
        else (do
          created ←
              wrap (λ t. "cannot create NetBox IP address " <> with_mask ip <> ": " <> t)
                (tell (N.ip_addresses_create (ip_address_request ip fhrp_group_id dns_name)))
          pure (created, true))

  -- A prefix that contains the address, or else a host prefix.
  unfoldable pub get_or_create_ipam_prefix : String → Exec N.State (Unit {0})
  get_or_create_ipam_prefix ip = do
    existing ←
        wrap (λ t. "cannot query IPAM prefixes for " <> ip <> ": " <> t)
          (ask (N.prefixes_list (Param.contains ip ∷ [])))
    if ltb 0 existing.count then pure tt else (do
      created ←
          wrap (λ t. "cannot create IPAM prefix " <> (ip <> "/32") <> ": " <> t)
            (tell (N.prefixes_create (ip <> "/32")))
      pure tt)
