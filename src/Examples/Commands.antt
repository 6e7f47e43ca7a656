-- ===== src/Examples/Commands.antt =====
-- The theorems on the command line, with its flags and on the small Kubernetes.
use machinecfg.Prelude.{◌≡◌, refl, String, List, inl, none, true, false, some, [], ◌∷◌, map, arith}
use machinecfg.Effect.{Reply, good, ok}
use machinecfg.Text.{itoa}
use machinecfg.Command.Arguments.{
  Flags, Environment, ConfigurationArgs, rack_ids, process_root_args, get_namespace,
}
use machinecfg.Command.Arguments.Laws.{IsAccepted, process_root_args-IsAccepted, rack_ids-itoa}
use machinecfg.Cluster.Sync.Steps.{SyncStatusResult}
use machinecfg.Cluster.Sync.Laws.{names_of}
use machinecfg.Command.Run.{CommandFlags}
use machinecfg.Command.Clusters.{cluster_show, ipaddr_show, cluster_sync_status, sync_table}
use machinecfg.Command.Machines.{
  pxe_allow, pxe_deny, clean_userdata, clean_vendordata, hardware_sync_status,
}
use machinecfg.Command.Reads.{commands-change_nothing}
use machinecfg.Command.Refused.{Refuses, commands-Refuse}
use machinecfg.Command.Reports.{cluster_sync_status-reports}
use machinecfg.Examples.{
  small_netbox, small_netbox-HasPages, small_kube, store, three_clusters, two_groups, page_of,
}

abbrev flags : Flags
flags = record {
  netbox_endpoint = "";
  netbox_token = "0123456789012345678901234567890123456789";
  output_directory = "";
  regions = "";
  sites = "paris,lyon";
  locations = "";
  racks = "";
  tenants = "";
  namespaces = "default";
  roles = "worker";
  virtualization = false;
  clusters = "";
}

abbrev environment : Environment
environment = record {
  netbox_endpoint = "http://netbox";
  netbox_token = "";
  kubeconfig = "";
  home = "/root";
}

abbrev accepted : ConfigurationArgs
accepted = record {
  endpoint = "http://netbox";
  token = "0123456789012345678901234567890123456789";
  output_directory = "";
  filters = record {
    regions = "" ∷ [];
    sites = "paris" ∷ "lyon" ∷ [];
    locations = "" ∷ [];
    racks = [];
    tenants = "" ∷ [];
    roles = "worker" ∷ [];
    virtualisation = false;
    clusters = "" ∷ [];
    status = [];
  };
}

flags-accepted : process_root_args flags environment false [] ≡ some accepted
unfolding process_root_args
flags-accepted = refl

process_root_args-IsAccepted_example : IsAccepted flags environment false true accepted
process_root_args-IsAccepted_example =
    process_root_args-IsAccepted flags environment false [] accepted flags-accepted

rack_ids-itoa_example : rack_ids (map itoa (12 ∷ 7 ∷ [])) ≡ (12 ∷ 7 ∷ [], false)
rack_ids-itoa_example = rack_ids-itoa (12 ∷ 7 ∷ []) (omega arith, (omega arith, tt))

abbrev command_flags : CommandFlags
command_flags = record { root = flags; hostname = ""; output = "table"; kubeconfig = "" }

abbrev nowhere : CommandFlags
nowhere = record command_flags { root = record flags { namespaces = "" } }

abbrev connect : String → Reply (Unit {0})
connect kubeconfig = good tt

abbrev unmarshal : String → Reply (List String)
unmarshal s = good (s ∷ [])

abbrev as_json : {A : Type 0} → A → Reply String
as_json a = good "{}"

commands-change_nothing_example :
    ((cluster_show small_netbox small_kube unmarshal connect environment command_flags as_json
        (store, [])).1
      ≡ (store, []))
    × ((ipaddr_show small_netbox small_kube unmarshal connect environment command_flags as_json
          (store, [])).1
        ≡ (store, []))
    × ((pxe_deny small_kube connect command_flags []).1 ≡ [])
commands-change_nothing_example =
    commands-change_nothing small_netbox small_kube unmarshal connect environment command_flags
      as_json as_json (store, [])

no_namespace : get_namespace nowhere.root ≡ none
unfolding get_namespace
no_namespace = refl

commands-Refuse_example :
    Refuses (pxe_allow small_kube connect nowhere) []
    × Refuses (clean_userdata small_kube connect nowhere) []
    × Refuses (clean_vendordata small_kube connect nowhere) []
    × Refuses
        (hardware_sync_status small_netbox small_kube connect as_json environment nowhere)
        (store, [])
    × Refuses
        (cluster_sync_status small_netbox small_kube unmarshal connect environment nowhere as_json)
        (store, [])
commands-Refuse_example =
    commands-Refuse connect nowhere (inl no_namespace) small_netbox small_kube environment unmarshal
      as_json as_json (store, [])

flags-clusters : process_root_args flags environment false (false ∷ []) ≡ some accepted
unfolding process_root_args
flags-clusters = refl

flags-namespace : get_namespace flags ≡ some "default"
unfolding get_namespace
flags-namespace = refl

cluster_sync_status-reports_example :
    (rs : List SyncStatusResult) × ((cluster_sync_status small_netbox small_kube unmarshal connect
        environment command_flags as_json
        (store, [])).0
      ≡ ok (sync_table rs))
    × (names_of rs ≡ "prod" ∷ "edge" ∷ [])
cluster_sync_status-reports_example =
    cluster_sync_status-reports small_netbox small_kube unmarshal connect environment command_flags
      as_json accepted "default" tt (store, []) {page = page_of three_clusters}
      {groups = page_of two_groups} small_netbox-HasPages flags-clusters flags-namespace refl refl
      refl refl (omega arith)
