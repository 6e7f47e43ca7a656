-- ===== src/Command/Run.antt =====
-- What the commands of cli/machinecfg/cmd share: the ways out of a command, the Kubernetes client
-- of root.go and the two forms of the output. A `fatalExit` is an error with its message, and so is
-- an exit after a message on an option.
use machinecfg.Prelude.{
  String, ◌<>◌, Option, none, some, Bool, true, false, List, [], ◌∷◌, ◌==◌, string_eq,
  if◌then◌else◌,
}
use machinecfg.Effect.{Exec, Reply, good, bad, error, pure, raise, ◌>>=◌}
use machinecfg.Text.{join}
use machinecfg.Command.Arguments.{Flags, Environment, get_kubeconfig_path}

-- The flags of the commands beside those of root.go that turn into arguments.
pub record CommandFlags : Type 0 where
  pub root : Flags
  pub hostname : String
  pub output : String
  pub kubeconfig : String

module _ {S A : Type 0} where
  -- `os.Exit(1)` where there is no value.
  abbrev pub or_exit : Option A → Exec S A
  or_exit none = raise (error "exit 1")
  or_exit (some a) = pure a

  -- `fatalExit` where there is an error.
  abbrev pub or_fatal : String → Reply A → Exec S A
  or_fatal message (good a) = pure a
  or_fatal message (bad e) = raise (error message)

-- `getK8sClient`: the configurations in and out of the cluster, the two registrations of types and
-- the construction of the client are calls of the client libraries.
module _ {RestConfig Client : Type 0} (in_cluster_config : Reply RestConfig)
    (build_config : String → Reply RestConfig) (add_tinkerbell add_core : Reply (Unit {0}))
    (new_client : RestConfig → Reply Client) where
  abbrev out_of_cluster : Reply RestConfig → Reply RestConfig
  out_of_cluster (good config) = good config
  out_of_cluster (bad e) = bad (record e { text = "cannot find any kubeconfig: " <> e.text })

  abbrev any_config : Environment → String → Reply RestConfig → Reply RestConfig
  any_config env override (good config) = good config
  any_config env override (bad e) = out_of_cluster (build_config (get_kubeconfig_path env override))

  abbrev with_schemes : Reply (Unit {0}) → Reply (Unit {0}) → RestConfig → Reply Client
  with_schemes (bad e) core config = bad e
  with_schemes (good t) (bad e) config = bad e
  with_schemes (good t) (good u) config = new_client config

  abbrev client_of : Reply RestConfig → Reply Client
  client_of (bad e) = bad e
  client_of (good config) = with_schemes add_tinkerbell add_core config

  unfoldable pub get_k8s_client : Environment → String → Reply Client
  get_k8s_client env override = client_of (any_config env override in_cluster_config)

-- The output of a command as JSON, or as a table before `tabwriter` aligns its columns.
abbrev pub printed : {S : Type 0} → String → Reply String → List String → Exec S (List String)
printed output json table =
    if output == "json"
    then (do text ← or_fatal "failed to marshal json" json; pure (text ∷ []))
    else pure table

-- `%t`
abbrev pub bool_text : Bool → String
bool_text true = "true"
bool_text false = "false"

abbrev pub line : List String → String
line cells = join "\t" cells
