-- ===== src/Command/HardwareShow.antt =====
-- hardware_show.go: the table of the Hardware objects, a row for each network interface. The
-- printing of the table is left out.
use machinecfg.Prelude.{
  String, Bool, true, false, Option, none, some, List, [], ◌∷◌, ◌++◌, map, get_text, ◌==◌,
  string_eq, if◌then◌else◌,
}
use machinecfg.Effect.{Exec, pure, ◌>>=◌}
use machinecfg.Text.{split}
use machinecfg.Kube.{Kube, Hardware, HardwareInterface, Netboot}
use machinecfg.Tinkerbell.Lookup.{get_hardwares, get_cluster_name}

pub record HardwareRow : Type 0 where
  pub hostname : String
  pub status : String
  pub allow_pxe : Bool
  pub workflow : Bool
  pub cluster : String

-- `slices.Contains`
unfoldable pub is_wanted : List String → String → Bool
is_wanted [] name = false
is_wanted (n ∷ ns) name = if n == name then true else is_wanted ns name

abbrev or_false : Option Bool → Bool
or_false none = false
or_false (some b) = b

abbrev netboot_flag : (Netboot → Option Bool) → Option Netboot → Bool
netboot_flag flag none = false
netboot_flag flag (some netboot) = or_false (flag netboot)

abbrev pub row_of : Hardware → String → HardwareInterface → HardwareRow
row_of hw cluster iface = record {
  hostname = hw.name;
  status = get_text hw.labels "status";
  allow_pxe = netboot_flag (λ n. n.allow_pxe) iface.netboot;
  workflow = netboot_flag (λ n. n.allow_workflow) iface.netboot;
  cluster = cluster;
}

module _ (K : Kube) where
  -- The objects of which the cluster is in the list, in order.
  unfoldable pub in_clusters : List String → List Hardware → Exec K.State (List Hardware)
  unfolding is_wanted
  in_clusters clusters [] = pure []
  in_clusters clusters (hw ∷ hws) = do
    name ← get_cluster_name K hw
    rest ← in_clusters clusters hws
    pure (if is_wanted clusters name then hw ∷ rest else rest)

  -- `clusterFilter[0] != ""`
  abbrev filtered : List String → List Hardware → Exec K.State (List Hardware)
  filtered [] hws = pure hws
  filtered (c ∷ cs) hws = if c == "" then pure hws else in_clusters (c ∷ cs) hws

  unfoldable pub rows_of_hardwares : List Hardware → Exec K.State (List HardwareRow)
  rows_of_hardwares [] = pure []
  rows_of_hardwares (hw ∷ hws) = do
    cluster ← get_cluster_name K hw
    rest ← rows_of_hardwares hws
    pure (map (row_of hw cluster) hw.interfaces ++ rest)

  unfoldable pub run_hardware_show : String → String → String → Exec K.State (List HardwareRow)
  unfolding in_clusters rows_of_hardwares split
  run_hardware_show namespace hostname clusters_flag = do
    hardwares ← get_hardwares K namespace hostname
    shown ← filtered (split b',' clusters_flag) hardwares
    rows_of_hardwares shown
