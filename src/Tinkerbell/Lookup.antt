-- ===== src/Tinkerbell/Lookup.antt =====
-- show.go: the Hardware objects of a namespace, and the cluster that one of them belongs to.
use machinecfg.Prelude.{
  String, ◌<>◌, not, ◌||◌, List, [], ◌∷◌, get_text, ◌==◌, string_eq, if◌then◌else◌,
}
use machinecfg.Effect.{Exec, Reply, good, bad, pure, ask, attempt, wrap, ◌>>=◌}
use machinecfg.Kube.{Kube, Gvk, Hardware}

abbrev tinkerbell_machine_gvk : Gvk
tinkerbell_machine_gvk = record {
  group = "infrastructure.cluster.x-k8s.io";
  version = "v1beta1";
  kind = "TinkerbellMachine";
}

module _ (K : Kube) where
  unfoldable pub get_hardwares : String → String → Exec K.State (List Hardware)
  get_hardwares namespace hostname =
      if not (hostname == "")
      then (do
        hw ←
            wrap (λ t. "cannot get Hardware " <> namespace <> "/" <> hostname <> ": " <> t)
              (ask (K.hardware_get namespace hostname))
        pure (hw ∷ []))
      else wrap (λ t. "cannot list Hardware in namespace " <> namespace <> ": " <> t)
          (ask (K.hardware_list namespace))

  abbrev cluster_of_machine : Reply K.Object → String
  cluster_of_machine (bad e) = ""
  cluster_of_machine (good machine) =
      get_text (K.object_labels machine) "cluster.x-k8s.io/cluster-name"

  unfoldable pub get_cluster_name : Hardware → Exec K.State String
  get_cluster_name hw =
      let owner_name = get_text hw.labels "v1alpha1.tinkerbell.org/ownerName" in
      let owner_namespace = get_text hw.labels "v1alpha1.tinkerbell.org/ownerNamespace" in
      if owner_name == "" || owner_namespace == "" then pure "" else (do
        machine ← attempt (ask (K.get_object tinkerbell_machine_gvk owner_namespace owner_name))
        pure (cluster_of_machine machine))
