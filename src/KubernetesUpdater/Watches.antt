-- ===== src/KubernetesUpdater/Watches.antt =====
-- The set-up of the reconcilers: which events of Kubernetes lead to which requests.
use machinecfg.Prelude.{String, List, [], ◌∷◌, string_eq, if◌then◌else◌}
use machinecfg.Kube.Watches.{Key, is_object, for_object}
use machinecfg.KubernetesUpdater.Config.{config_map_name, secret_name}

-- An event of one of the two watched kinds of objects.
pub data Change : Type 0 where
  config_map_changed secret_changed : Key → Change

module _ (namespace : String) where
  -- The handler of the Secret: the request is for the ConfigMap.
  abbrev secret_requests : Key → List Key
  secret_requests o =
      if is_object secret_name namespace o
      then record { name = config_map_name; namespace = namespace } ∷ []
      else []

  -- `ConfigReconciler.SetupWithManager`
  unfoldable pub config_requests : Change → List Key
  config_requests (config_map_changed o) = for_object (is_object config_map_name namespace o) o
  config_requests (secret_changed o) =
      if is_object secret_name namespace o then secret_requests o else []

  -- `NetBoxSyncReconciler.SetupWithManager`
  unfoldable pub sync_requests : Key → List Key
  sync_requests o = for_object (is_object config_map_name namespace o) o
