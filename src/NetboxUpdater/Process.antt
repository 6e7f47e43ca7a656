-- ===== src/NetboxUpdater/Process.antt =====
-- controllers/controller-netbox-updater/main.go: the namespace that is watched, the first reading of
-- the configuration, and the reconcilers that are set up. Setting one up is a call of
-- controller-runtime, which is left out, as are the probes and tracing.
use machinecfg.Prelude.{
  String, Bool, not, ◌||◌, List, [], ◌∷◌, ◌++◌, ◌==◌, string_eq, if◌then◌else◌,
}
use machinecfg.Effect.{Exec, pure, ask, attempt, on_left, good, ◌>>=◌}
use machinecfg.Kube.{Kube}
use machinecfg.NetboxUpdater.Config.{State, get_backend, bootstrap}

pub data Reconciler : Type 0 where
  config hardware cluster : Reconciler

-- CONTROLLER_NAMESPACE
abbrev pub watched_namespace : String → String
watched_namespace value = if value == "" then "default" else value

-- LEADER_ELECT
abbrev pub leader_elect : String → Bool
leader_elect value = not (value == "false")

-- The `switch` on the backend: another one than Tinkerbell gets no reconciler of its own.
abbrev pub backend_reconcilers : String → List Reconciler
backend_reconcilers backend =
    if backend == "tinkerbell" || backend == "" then Reconciler.hardware ∷ [] else []

abbrev pub reconcilers : String → List Reconciler
reconcilers backend = Reconciler.config ∷ (backend_reconcilers backend ++ Reconciler.cluster ∷ [])

module _ {Client : Type 0} (new_client : String → String → Client) (K : Kube) where
  -- The part of `main` before the manager starts: a first reading that fails is logged.
  unfoldable pub start : String → Exec (State new_client K) (List Reconciler)
  start namespace_variable = do
    first_reading ← attempt (bootstrap new_client K (watched_namespace namespace_variable))
    now ← on_left (ask (λ c. good c))
    pure (reconcilers (get_backend now))
