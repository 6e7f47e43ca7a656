-- ===== src/KubernetesUpdater/Process.antt =====
-- controllers/controller-kubernetes-updater/main.go: the namespace that is watched, the first
-- reading of the configuration, tracing and the set-up of the two reconcilers. `init_otel` stands
-- for the start of tracing, `set_up` for the registration of a reconciler with controller-runtime.
use machinecfg.Prelude.{ℕ, String, Bool, not, List, [], ◌∷◌, ◌==◌, string_eq, if◌then◌else◌}
use machinecfg.Effect.{Exec, Reply, good, pure, ask, attempt, on_left, ◌>>=◌, ◌>>◌}
use machinecfg.Kube.{Kube}
use machinecfg.KubernetesUpdater.Config.{State, Config, bootstrap}

pub data Controller : Type 0 where
  config_reconciler netbox_sync_reconciler : Controller

-- CONTROLLER_NAMESPACE, LEADER_ELECT
abbrev pub controller_namespace : String → String
controller_namespace value = if value == "" then "default" else value

abbrev pub elects_leader : String → Bool
elects_leader value = not (value == "false")

module _ {Client : Type 0} (new_client : String → String → Client)
    (parse_duration : String → Reply ℕ) (K : Kube) (init_otel : String → Reply (Unit {0}))
    (set_up : Controller → Reply (Unit {0})) where
  abbrev World : Type 0
  World = State new_client parse_duration K

  -- A tracer that cannot be started is logged.
  abbrev start_tracing : Config Client → Exec World (Unit {0})
  start_tracing c =
      if c.otel_enabled
      then (do started ← attempt (ask (λ _. init_otel c.otel_endpoint)); pure tt)
      else pure tt

  -- A reconciler that cannot be set up ends the process.
  abbrev set_up_or_exit : Controller → Exec World (Unit {0})
  set_up_or_exit r = ask (λ _. set_up r)

  -- The part of `main` between the construction of the manager and its start: the reconcilers that
  -- are set up. A first reading that fails is logged.
  unfoldable pub start_controller : String → Exec World (List Controller)
  start_controller namespace_variable = do
    first_reading ←
        attempt (bootstrap new_client parse_duration K (controller_namespace namespace_variable))
    now ← on_left (ask (λ c. good c))
    start_tracing now
    set_up_or_exit Controller.config_reconciler
    set_up_or_exit Controller.netbox_sync_reconciler
    pure (Controller.config_reconciler ∷ Controller.netbox_sync_reconciler ∷ [])
