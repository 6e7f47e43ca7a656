-- ===== src/KubernetesUpdater/Config/Laws.antt =====
-- config.go: what the reconcilers may rely on of the configuration.
use machinecfg.Prelude.{
  ℕ, ◌<◌, String, ◌≡◌, ◌≢◌, refl, ◌∙◌, ap, sym, eq_iff, ◌⊎◌, inl, inr, Bool, true, false, not, ◌&&◌,
  some, Dict, get_text, arith, Bool-cases, ltb, ◌==◌, string_eq, if◌then◌else◌,
}
use mathlib.Core.Bool.{false≢true}
use machinecfg.Effect.{Reply, good, bad, pure, raise, Reply-cases, Error, ErrorKind, ◌>>=◌}
use machinecfg.Kube.{Kube}
use machinecfg.KubernetesUpdater.Config.{
  Config, get_sync_interval, interval_of, apply_config_map_and_secret, reconcile_config,
  store_config, State, config_map_name, secret_name, ignore_not_found, or_default,
  default_netbox_endpoint, positive_or_default,
}

module _ {Client : Type 0} where
  pub get_sync_interval-positive : (c : Config Client) → 0 < get_sync_interval c
  unfolding get_sync_interval
  get_sync_interval-positive c = ground arith

module _ {Client : Type 0} (new_client : String → String → Client)
    (parse_duration : String → Reply ℕ) where
  -- Polling at so many nanoseconds, for this text of the interval: at a positive duration that the
  -- text is, or every five minutes if the text is empty, is no duration or is the duration zero.
  abbrev pub PollsAt : String → ℕ → Type 0
  PollsAt raw interval =
      ((raw ≢ "") × (parse_duration raw ≡ good interval) × (0 < interval))
      ⊎ (((raw ≡ "") ⊎ ((e : Error) × (parse_duration raw ≡ bad e)) ⊎ (parse_duration raw ≡ good 0))
          × (interval ≡ 300_000_000_000))

  duration-PollsAt :
      (raw : String) (r : Reply ℕ)
      → parse_duration raw ≡ r
      → raw ≢ ""
      → PollsAt raw (positive_or_default new_client parse_duration r)
  duration-PollsAt raw (bad e) h given = inr (inr (inl (e, h)), refl)
  duration-PollsAt raw (good d) h given = elim (Bool-cases (ltb 0 d)) [
    | inl positive ↦ rw positive (inl (given, h, ground arith))
    | inr zero_long ↦ rw zero_long (inr (inr (inr (h ∙ ap good (ground arith))), refl))
  ]

  interval_of-PollsAt : (raw : String) → PollsAt raw (interval_of new_client parse_duration raw)
  unfolding interval_of
  interval_of-PollsAt raw = elim (Bool-cases (raw == "")) [
    | inl empty ↦ rw empty (inr (inl ((eq_iff _ _).0 empty), refl))
    | inr some_text ↦ rw some_text (
        duration-PollsAt raw (parse_duration raw) refl
          (λ e. false≢true (sym some_text ∙ (eq_iff _ _).1 e)))
  ]

  PollsAt-positive : (raw : String) (n : ℕ) → PollsAt raw n → 0 < n
  PollsAt-positive raw n h = elim h [
    | inl (_, _, positive) ↦ positive
    | inr (_, five_minutes) ↦ omega (arith, five_minutes)
  ]

  -- After the configuration is applied, the reconcilers poll at the duration that the text
  -- "sync_interval" of the ConfigMap is, if it is a positive one; if the text is missing or empty,
  -- is no duration or is the duration zero, they poll every five minutes.
  pub apply-interval :
      (c : Config Client) (cm secret : Dict String)
      → PollsAt
          (get_text cm "sync_interval")
          (get_sync_interval (apply_config_map_and_secret new_client parse_duration c cm secret))
  unfolding get_sync_interval apply_config_map_and_secret
  apply-interval c cm secret =
      let polls = interval_of-PollsAt (get_text cm "sync_interval") in
      let h = PollsAt-positive _ _ polls in
      let positive : ltb 0 (interval_of new_client parse_duration (get_text cm "sync_interval"))
          ≡ true =
        ground (arith, h) in
      rw positive polls

  -- Applying the ConfigMap and the Secret never loses the NetBox client.
  apply-client :
      (c : Config Client) (cm secret : Dict String) (client : Client)
      → c.netbox_client ≡ some client
      → (new : Client) × ((apply_config_map_and_secret new_client parse_duration c cm
            secret).netbox_client
          ≡ some new)
  unfolding apply_config_map_and_secret
  apply-client c cm secret client h =
      chosen
        (not (or_default (get_text cm "netbox_endpoint") default_netbox_endpoint == "")
          && not (get_text secret "netbox_token" == ""))
        _
    where
      chosen :
          (b : Bool) (made : Client)
          → (new : Client) × ((if b then some made else c.netbox_client) ≡ some new)
      chosen true made = (made, refl)
      chosen false made = (client, h)

  module _ (K : Kube) where
    -- What a round of the reconciler leaves: either nothing changed, or both objects were read and
    -- the whole configuration was applied.
    abbrev pub Settles :
        String → State new_client parse_duration K → State new_client parse_duration K → Type 0
    Settles namespace (c, k) after =
        (after ≡ (c, k))
        ⊎ ((cm : Dict String) × (secret : Dict String) × (K.get_config_map namespace config_map_name
                k
              ≡ good cm)
            × (K.get_secret namespace secret_name k ≡ good secret)
            × (after ≡ (apply_config_map_and_secret new_client parse_duration c cm secret, k)))

    ignored :
        (kind : ErrorKind) (e : Error) (w : State new_client parse_duration K)
        → (ignore_not_found new_client parse_duration K kind e w).1 ≡ w
    unfolding pure raise
    ignored ErrorKind.not_found e w = refl
    ignored ErrorKind.already_exists e w = refl
    ignored ErrorKind.other e w = refl

    -- A round of the reconciler of the configuration either changes nothing, or reads both objects
    -- and applies them as a whole; it never writes to Kubernetes.
    pub reconcile_config-Settles :
        (namespace : String) (w : State new_client parse_duration K)
        → Settles namespace w (reconcile_config new_client parse_duration K namespace w).1
    unfolding reconcile_config ◌>>=◌ store_config
    reconcile_config-Settles namespace (c, k) =
        elim (Reply-cases (K.get_config_map namespace config_map_name k)) [
          | inr (e, failed) ↦ rw failed (inl (ignored e.kind e (c, k)))
          | inl (cm, read) ↦ elim (Reply-cases (K.get_secret namespace secret_name k)) [
            | inr (e, failed) ↦ rw (read, failed) (inl (ignored e.kind e (c, k)))
            | inl (secret, read2) ↦ rw (read, read2) (inr (cm, secret, refl, refl, refl))
          ]
        ]

    -- No round of the reconciler of the configuration, whatever it reads, takes away the NetBox
    -- client that the other reconcilers use.
    pub reconcile_config-keeps-client :
        (namespace : String) (c : Config Client) (k : K.State) (client : Client)
        → c.netbox_client ≡ some client
        → (new : Client) × ((reconcile_config new_client parse_duration K namespace
              (c, k)).1.0.netbox_client
            ≡ some new)
    reconcile_config-keeps-client namespace c k client h =
        elim (reconcile_config-Settles namespace (c, k)) [
          | inl e ↦ (client, ap (λ w. w.0.netbox_client) e ∙ h)
          | inr (cm, secret, _, _, e) ↦
              let (new, is_new) = apply-client c cm secret client h in
              (new, ap (λ w. w.0.netbox_client) e ∙ is_new)
        ]
