-- ===== src/Cluster/Sync/Steps/Answers.antt =====
-- sync_status.go: the results of the stages of a round.
use machinecfg.Prelude.{ℕ, String, ◌≡◌, refl, Bool, not, Option, none, some, List, Dict, string_eq}
use machinecfg.Effect.{Reply, good, bad}
use machinecfg.Effect.Meets.{
  ask-Meets, Meets, Meets-pure, Meets-if, Meets-wrap, Meets-raise, Meets-attempt, Meets-bind,
  Meets-on_left, Meets-on_right, Anything,
}
use machinecfg.Netbox.{Netbox, NbCluster, Record, IpAddress}
use machinecfg.Netbox.Pages.{HasPages}
use machinecfg.Kube.{Kube}
use machinecfg.Cluster.Names.{managed_type_slug}
use machinecfg.Cluster.Records.{is_hostname}
use machinecfg.Cluster.Records.Answers.{
  get_or_create_service-Meets, get_or_create_service_template-Meets, get_or_create_ip_address-Meets,
  get_dns_name_from_prefix-Meets,
}
use machinecfg.Cluster.Tailscale.{TailscaleDevice, address}
use machinecfg.Cluster.Tailscale.Answers.{
  get_kamaji_tailscale_device-Meets, sync_tailscale_ipam-Meets,
}
use machinecfg.Cluster.Sync.Steps.{
  SyncStatusResult, Step, go_on, stop, result_of, after_service, after_template, service_stage,
  after_ip, annotations_or_error, get_kamaji_control_plane_ip, dns_name_for, record_cilium_ip,
  cilium_stage, after_tailscale, record_tailscale, tailscale_stage, then_tailscale, managed_stage,
}

-- The result is that of the cluster with this name.
abbrev pub Names : String → SyncStatusResult → Type 0
Names name r = r.cluster_name ≡ name

abbrev NamesStep : String → Step → Type 0
NamesStep name step = Names name (result_of step)

after_service-Names :
    (name : String) (r : SyncStatusResult) (o : Reply (Record × Bool))
    → Names name r
    → Names name (after_service r o)
after_service-Names name r (good (svc, created)) h = h
after_service-Names name r (bad e) h = h

after_ip-Names :
    (name : String) (r : SyncStatusResult) (o : Reply (IpAddress × Bool))
    → Names name r
    → NamesStep name (after_ip r o)
after_ip-Names name r (good (addr, created)) h = h
after_ip-Names name r (bad e) h = h

after_tailscale-Names :
    (name : String) (r : SyncStatusResult) (dev : TailscaleDevice) (o : Reply (IpAddress × Bool))
    → Names name r
    → Names name (after_tailscale r dev o)
after_tailscale-Names name r dev (good (addr, created)) h = h
after_tailscale-Names name r dev (bad e) h = h

module _ (N : Netbox) (pages : HasPages N) where
  after_template-Meets :
      (name : String) (port group_id : ℕ) (r : SyncStatusResult) (o : Reply (Record × Bool))
      → Meets ⊥ (Names r.cluster_name) (after_template N name port group_id r o)
  after_template-Meets name port group_id r (bad e) = Meets-pure _ refl
  after_template-Meets name port group_id r (good (template, created)) =
      Meets-bind _ _ (Meets-attempt _ _ (get_or_create_service-Meets N pages group_id name port))
        λ o _. Meets-pure _ (after_service-Names _ _ o refl)

  pub service_stage-Meets :
      (name : String) (port group_id : ℕ) (r : SyncStatusResult)
      → Meets ⊥ (Names r.cluster_name) (service_stage N name port group_id r)
  unfolding service_stage
  service_stage-Meets name port group_id r =
      Meets-bind _ _ (Meets-attempt _ _ (get_or_create_service_template-Meets N pages port))
        λ o _. after_template-Meets name port group_id r o

module _ (K : Kube) where
  annotations_or_error-Meets :
      (name : String) (o : Reply (Option (Dict String)))
      → Meets Unit Anything (annotations_or_error K name o)
  annotations_or_error-Meets name (good (some m)) = Meets-pure _ tt
  annotations_or_error-Meets name (good none) = Meets-pure _ tt
  annotations_or_error-Meets name (bad e) = Meets-raise _

  get_kamaji_control_plane_ip-Meets :
      (namespace name : String) → Meets Unit Anything (get_kamaji_control_plane_ip K namespace name)
  unfolding get_kamaji_control_plane_ip
  get_kamaji_control_plane_ip-Meets namespace name =
      Meets-bind _ _ (Meets-wrap _ _ (ask-Meets _))
        λ kcp _. Meets-bind _ _ (annotations_or_error-Meets name _) λ m _. Meets-pure _ tt

module _ (N : Netbox) (K : Kube) (unmarshal : String → Reply (List String))
    (pages : HasPages N) where
  dns_name_for-Meets :
      (host ip name : String) → Meets ⊥ Anything (dns_name_for N K unmarshal host ip name)
  dns_name_for-Meets host ip name =
      Meets-if (not (is_hostname host)) _ _
        (λ _.
          Meets-bind _ _ (Meets-attempt _ _ (get_dns_name_from_prefix-Meets N pages ip name))
            λ x _. Meets-pure _ tt)
        (λ _. Meets-pure _ tt)

  record_cilium_ip-Meets :
      (name host : String) (group_id : ℕ) (r : SyncStatusResult) (o : Reply String)
      → Meets ⊥ (NamesStep r.cluster_name) (record_cilium_ip N K unmarshal name host group_id r o)
  record_cilium_ip-Meets name host group_id r (bad e) = Meets-pure _ refl
  record_cilium_ip-Meets name host group_id r (good ip) =
      Meets-if (not (string_eq.beq ip "")) _ _
        (λ _. Meets-bind _ _ (dns_name_for-Meets host ip name) λ dns _.
          Meets-bind _ _
            (Meets-attempt _ _ (get_or_create_ip_address-Meets N pages ip group_id dns))
            λ o _. Meets-pure _ (after_ip-Names _ r o refl))
        (λ _. Meets-pure _ refl)

  cilium_stage-Meets :
      (namespace name host : String) (group_id : ℕ) (r : SyncStatusResult)
      → Meets ⊥
          (NamesStep r.cluster_name)
          (cilium_stage N K unmarshal namespace name host group_id r)
  unfolding cilium_stage
  cilium_stage-Meets namespace name host group_id r =
      Meets-bind _ _
        (Meets-attempt _ _ (Meets-on_right _ (get_kamaji_control_plane_ip-Meets K namespace name)))
        λ o _. Meets-on_left _ (record_cilium_ip-Meets name host group_id r o)

  record_tailscale-Meets :
      (group_id : ℕ) (r : SyncStatusResult) (o : Reply TailscaleDevice)
      → Meets ⊥ (Names r.cluster_name) (record_tailscale N K unmarshal group_id r o)
  record_tailscale-Meets group_id r (bad e) = Meets-pure _ refl
  record_tailscale-Meets group_id r (good dev) =
      Meets-if (not (string_eq.beq (address dev) "")) _ _
        (λ _.
          Meets-bind _ _ (Meets-attempt _ _ (sync_tailscale_ipam-Meets N pages group_id dev))
            λ o _. Meets-pure _ (after_tailscale-Names _ r dev o refl))
        (λ _. Meets-pure _ refl)

  tailscale_stage-Meets :
      (namespace name : String) (group_id : ℕ) (r : SyncStatusResult)
      → Meets ⊥ (Names r.cluster_name) (tailscale_stage N K unmarshal namespace name group_id r)
  unfolding tailscale_stage
  tailscale_stage-Meets namespace name group_id r =
      Meets-bind _ _
        (Meets-attempt _ _
          (Meets-on_right _ (get_kamaji_tailscale_device-Meets K unmarshal namespace name)))
        λ o _. Meets-on_left _ (record_tailscale-Meets group_id r o)

  then_tailscale-Meets :
      (namespace name : String) (group_id : ℕ) (step : Step)
      → Meets ⊥
          (NamesStep (result_of step).cluster_name)
          (then_tailscale N K unmarshal namespace name group_id step)
  then_tailscale-Meets namespace name group_id (stop r) = Meets-pure _ refl
  then_tailscale-Meets namespace name group_id (go_on r) =
      Meets-bind _ _ (tailscale_stage-Meets namespace name group_id r) λ r' h. Meets-pure _ h

  pub managed_stage-Meets :
      (namespace : String) (c : NbCluster) (host : String) (group_id : ℕ) (r : SyncStatusResult)
      → Meets ⊥ (NamesStep r.cluster_name) (managed_stage N K unmarshal namespace c host group_id r)
  unfolding managed_stage
  managed_stage-Meets namespace c host group_id r =
      Meets-if (string_eq.beq c.type_slug managed_type_slug) _ _
        (λ _.
          Meets-bind _ _ (cilium_stage-Meets namespace c.name host group_id r)
            λ step h. rw (← h) (then_tailscale-Meets namespace c.name group_id step))
        (λ _. Meets-pure _ refl)
