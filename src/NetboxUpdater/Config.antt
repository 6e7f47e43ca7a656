-- ===== src/NetboxUpdater/Config.antt =====
-- config.go: the configuration that the reconcilers share. `new_client` stands for
-- `netbox.NewAPIClientFor`.
use machinecfg.Prelude.{
  String, ◌<>◌, Bool, false, not, ◌&&◌, Option, none, some, Dict, get_text, ◌==◌, string_eq,
  if◌then◌else◌,
}
use machinecfg.Effect.{
  Exec, Reply, good, bad, Error, ErrorKind, pure, raise, ask, tell, attempt, wrap, on_left,
  on_right, ◌>>=◌,
}
use machinecfg.Kube.{Kube}

abbrev pub config_map_name : String
config_map_name = "netbox-updater-config"

abbrev pub secret_name : String
secret_name = "netbox-updater-secret"

abbrev default_netbox_endpoint : String
default_netbox_endpoint = "http://netbox.svc"

abbrev default_backend : String
default_backend = "tinkerbell"

-- `Config`, with the reading and writing of its fields under one lock.
pub record Config (Client : Type 0) : Type 0 where
  pub netbox_endpoint : String
  pub netbox_token : String
  pub backend : String
  pub otel_enabled : Bool
  pub otel_endpoint : String
  pub netbox_client : Option Client

abbrev pub new_config : {Client : Type 0} → Config Client
new_config = record {
  netbox_endpoint = default_netbox_endpoint;
  netbox_token = "";
  backend = default_backend;
  otel_enabled = false;
  otel_endpoint = "";
  netbox_client = none;
}

abbrev or_default : String → String → String
or_default s d = if s == "" then d else s

abbrev pub get_backend : {Client : Type 0} → Config Client → String
get_backend c = or_default c.backend default_backend

module _ {Client : Type 0} (new_client : String → String → Client) where
  unfoldable pub update : Config Client → String → String → String → Bool → String → Config Client
  update c endpoint token backend otel_enabled otel_endpoint = record {
    netbox_endpoint = endpoint;
    netbox_token = token;
    backend = backend;
    otel_enabled = otel_enabled;
    otel_endpoint = otel_endpoint;
    netbox_client =
        if not (endpoint == "") && not (token == "")
        then some (new_client endpoint token)
        else c.netbox_client;
  }

  unfoldable pub apply_config_map_and_secret :
      Config Client → Dict String → Dict String → Config Client
  unfolding update
  apply_config_map_and_secret c cm secret =
      update c (or_default (get_text cm "netbox_endpoint") default_netbox_endpoint)
        (get_text secret "netbox_token") (or_default (get_text cm "backend") default_backend)
        (get_text cm "otel_enabled" == "true") (get_text cm "otel_endpoint")

  module _ (K : Kube) where
    abbrev pub State : Type 0
    State = Config Client × K.State

    abbrev store_config : Dict String → Dict String → Exec State (Unit {0})
    store_config cm secret =
        on_left (tell (λ c. (good tt, apply_config_map_and_secret c cm secret)))

    unfoldable pub bootstrap : String → Exec State (Unit {0})
    bootstrap namespace = do
      cm ←
          wrap (λ t. "cannot read ConfigMap " <> namespace <> "/" <> config_map_name <> ": " <> t)
            (on_right (ask (K.get_config_map namespace config_map_name)))
      secret ←
          wrap (λ t. "cannot read Secret " <> namespace <> "/" <> secret_name <> ": " <> t)
            (on_right (ask (K.get_secret namespace secret_name)))
      store_config cm secret

    -- `client.IgnoreNotFound`
    abbrev ignore_not_found : ErrorKind → Error → Exec State (Unit {0})
    ignore_not_found ErrorKind.not_found e = pure tt
    ignore_not_found ErrorKind.already_exists e = raise e
    ignore_not_found ErrorKind.other e = raise e

    abbrev after_secret : Dict String → Reply (Dict String) → Exec State (Unit {0})
    after_secret cm (bad e) = ignore_not_found e.kind e
    after_secret cm (good secret) = store_config cm secret

    abbrev after_config_map : String → Reply (Dict String) → Exec State (Unit {0})
    after_config_map namespace (bad e) = ignore_not_found e.kind e
    after_config_map namespace (good cm) = do
      secret ← attempt (on_right (ask (K.get_secret namespace secret_name)))
      after_secret cm secret

    -- `ConfigReconciler.Reconcile`
    unfoldable pub reconcile_config : String → Exec State (Unit {0})
    reconcile_config namespace = do
      cm ← attempt (on_right (ask (K.get_config_map namespace config_map_name)))
      after_config_map namespace cm
