-- ===== src/KubernetesUpdater/Config.antt =====
-- config.go: the configuration that the reconcilers share, read from a ConfigMap and a Secret.
-- `new_client` stands for `netbox.NewAPIClientFor` and `parse_duration` for `time.ParseDuration`,
-- whose durations are numbers of nanoseconds, negative ones left out.
pub mod Laws
use machinecfg.Prelude.{
  ℕ, zero, ◌*◌, String, ◌<>◌, Bool, true, false, not, ◌&&◌, Option, none, some, List, [], ◌∷◌, Dict,
  get_text, ltb, ◌==◌, string_eq, if◌then◌else◌,
}
use machinecfg.Effect.{
  Exec, Reply, good, bad, Error, ErrorKind, pure, raise, ask, tell, attempt, wrap, on_left,
  on_right, ◌>>=◌,
}
use machinecfg.Text.{trim_space}
use machinecfg.Kube.{Kube}
use machinecfg.Common.Filters.{DeviceFilters}
use machinecfg.KubernetesUpdater.Csv.{split_csv}

abbrev pub config_map_name : String
config_map_name = "kubernetes-updater-config"

abbrev pub secret_name : String
secret_name = "kubernetes-updater-secret"

abbrev pub default_netbox_endpoint : String
default_netbox_endpoint = "http://netbox.svc"

abbrev pub default_backend : String
default_backend = "tinkerbell"

-- Five minutes in nanoseconds.
abbrev pub default_sync_interval : ℕ
default_sync_interval = 300 * 1_000_000_000

abbrev pub no_filters : DeviceFilters
no_filters = record {
  regions = [];
  sites = [];
  locations = [];
  racks = [];
  tenants = [];
  roles = [];
  virtualisation = false;
  clusters = [];
  status = [];
}

-- `Config`, with the reading and writing of its fields under one lock.
pub record Config (Client : Type 0) : Type 0 where
  pub netbox_endpoint : String
  pub netbox_token : String
  pub backend : String
  pub sync_interval : ℕ
  pub ignition_variant : Option String
  pub device_filters : DeviceFilters
  pub otel_enabled : Bool
  pub otel_endpoint : String
  pub netbox_client : Option Client

abbrev pub new_config : {Client : Type 0} → Config Client
new_config = record {
  netbox_endpoint = default_netbox_endpoint;
  netbox_token = "";
  backend = default_backend;
  sync_interval = default_sync_interval;
  ignition_variant = none;
  device_filters = no_filters;
  otel_enabled = false;
  otel_endpoint = "";
  netbox_client = none;
}

abbrev or_default : String → String → String
or_default s d = if s == "" then d else s

module _ {Client : Type 0} where
  unfoldable pub get_backend : Config Client → String
  get_backend c = or_default c.backend default_backend

  unfoldable pub get_sync_interval : Config Client → ℕ
  get_sync_interval c = if ltb 0 c.sync_interval then c.sync_interval else default_sync_interval

module _ {Client : Type 0} (new_client : String → String → Client) where
  -- The client is made anew if there is an endpoint and a token, and stays as it is if not.
  unfoldable pub update :
      Config Client
      → String
      → String
      → String
      → ℕ
      → Option String
      → DeviceFilters
      → Bool
      → String
      → Config Client
  update c endpoint token backend interval variant filters otel_enabled otel_endpoint = record {
    netbox_endpoint = endpoint;
    netbox_token = token;
    backend = backend;
    sync_interval = interval;
    ignition_variant = variant;
    device_filters = filters;
    otel_enabled = otel_enabled;
    otel_endpoint = otel_endpoint;
    netbox_client =
        if not (endpoint == "") && not (token == "")
        then some (new_client endpoint token)
        else c.netbox_client;
  }

  module _ (parse_duration : String → Reply ℕ) where
    abbrev positive_or_default : Reply ℕ → ℕ
    positive_or_default (good d) = if ltb 0 d then d else default_sync_interval
    positive_or_default (bad e) = default_sync_interval

    unfoldable pub interval_of : String → ℕ
    interval_of raw =
        if not (raw == "") then positive_or_default (parse_duration raw) else default_sync_interval

    abbrev variant_of : String → Option String
    variant_of raw = let v = trim_space raw in if not (v == "") then some v else none

    abbrev pub filters_of : Dict String → DeviceFilters
    filters_of cm = record no_filters {
      sites = split_csv (get_text cm "sites");
      roles = split_csv (get_text cm "roles");
      tenants = split_csv (get_text cm "tenants");
      regions = split_csv (get_text cm "regions");
      locations = split_csv (get_text cm "locations");
    }

    unfoldable pub apply_config_map_and_secret :
        Config Client → Dict String → Dict String → Config Client
    unfolding update interval_of
    apply_config_map_and_secret c cm secret =
        update c (or_default (get_text cm "netbox_endpoint") default_netbox_endpoint)
          (get_text secret "netbox_token") (or_default (get_text cm "backend") default_backend)
          (interval_of (get_text cm "sync_interval")) (variant_of (get_text cm "ignition_variant"))
          (filters_of cm) (get_text cm "otel_enabled" == "true") (get_text cm "otel_endpoint")

    module _ (K : Kube) where
      abbrev pub State : Type 0
      State = Config Client × K.State

      unfoldable pub store_config : Dict String → Dict String → Exec State (Unit {0})
      unfolding apply_config_map_and_secret
      store_config cm secret =
          on_left (tell (λ c. (good tt, apply_config_map_and_secret c cm secret)))

      unfoldable pub bootstrap : String → Exec State (Unit {0})
      bootstrap namespace = do
        cm ←
            wrap (λ t. "cannot read ConfigMap " <> namespace <> "/" <> config_map_name <> ": " <> t)
              (on_right (ask (K.get_config_map namespace config_map_name)))
        secret ←
            wrap (λ t. "cannot read Secret " <> namespace <> "/" <> secret_name <> ": " <> t)
              (on_right (ask (K.get_secret namespace secret_name)))
        store_config cm secret

      -- `client.IgnoreNotFound`
      abbrev ignore_not_found : ErrorKind → Error → Exec State (Unit {0})
      ignore_not_found ErrorKind.not_found e = pure tt
      ignore_not_found ErrorKind.already_exists e = raise e
      ignore_not_found ErrorKind.other e = raise e

      abbrev after_secret : Dict String → Reply (Dict String) → Exec State (Unit {0})
      after_secret cm (bad e) = ignore_not_found e.kind e
      after_secret cm (good secret) = store_config cm secret

      abbrev after_config_map : String → Reply (Dict String) → Exec State (Unit {0})
      after_config_map namespace (bad e) = ignore_not_found e.kind e
      after_config_map namespace (good cm) = do
        secret ← attempt (on_right (ask (K.get_secret namespace secret_name)))
        after_secret cm secret

      -- `ConfigReconciler.Reconcile`
      unfoldable pub reconcile_config : String → Exec State (Unit {0})
      reconcile_config namespace = do
        cm ← attempt (on_right (ask (K.get_config_map namespace config_map_name)))
        after_config_map namespace cm
