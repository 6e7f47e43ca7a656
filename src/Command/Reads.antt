-- ===== src/Command/Reads.antt =====
-- cluster_show.go, cluster_ipaddr.go and hardware_pxe.go: what the commands that show clusters and
-- the one that denies PXE do to NetBox and Kubernetes.
use machinecfg.Prelude.{String, ◌≡◌, Option, none, some, List, string_eq}
use machinecfg.Effect.{Reply, good, bad}
use machinecfg.Effect.Moves.{Moves, Preorder, keeps, reads}
use machinecfg.Netbox.{Netbox}
use machinecfg.Kube.{Kube}
use machinecfg.Cluster.Show.{ClusterRow, show}
use machinecfg.Cluster.Reports.{reports-change_nothing}
use machinecfg.Cluster.IpRows.{IpAddressRow, show_ip_addresses}
use machinecfg.Command.Arguments.{Environment}
use machinecfg.Command.Run.{CommandFlags, or_exit, or_fatal, printed}
use machinecfg.Command.Clusters.{cluster_show, ipaddr_show}
use machinecfg.Command.Machines.{pxe_deny}

module _ {S : Type 0} {P : Preorder S} where
  or_exit-Moves : {A : Type 0} (a : Option A) → Moves P (or_exit a)
  or_exit-Moves none = search reads depth 4
  or_exit-Moves (some a) = search reads depth 4

  or_fatal-Moves : {A : Type 0} (message : String) (r : Reply A) → Moves P (or_fatal message r)
  or_fatal-Moves message (good a) = search reads depth 4
  or_fatal-Moves message (bad e) = search reads depth 4

  printed-Moves :
      (output : String) (json : Reply String) (table : List String)
      → Moves P (printed output json table)
  printed-Moves output json table = search (reads, or_fatal-Moves) depth 8

module _ {Client : Type 0} (N : Netbox) (K : Kube) (unmarshal : String → Reply (List String))
    (connect : String → Reply Client) (env : Environment) (flags : CommandFlags) where
  show-Moves :
      (namespace : String) (names : List String) → Moves (keeps (λ w. w)) (show N K namespace names)
  show-Moves namespace names = record {
    at = λ w. (reports-change_nothing N K unmarshal namespace names w).0;
  }

  show_ip_addresses-Moves :
      (namespace : String) (names : List String)
      → Moves (keeps (λ w. w)) (show_ip_addresses N K unmarshal namespace names)
  show_ip_addresses-Moves namespace names = record {
    at = λ w. (reports-change_nothing N K unmarshal namespace names w).1;
  }

  cluster_show-Moves :
      (marshal : List ClusterRow → Reply String)
      → Moves (keeps (λ w. w)) (cluster_show N K unmarshal connect env flags marshal)
  unfolding cluster_show
  cluster_show-Moves marshal =
      search (reads, or_exit-Moves, or_fatal-Moves, printed-Moves, show-Moves) depth 14

  ipaddr_show-Moves :
      (marshal : List IpAddressRow → Reply String)
      → Moves (keeps (λ w. w)) (ipaddr_show N K unmarshal connect env flags marshal)
  unfolding ipaddr_show
  ipaddr_show-Moves marshal =
      search (reads, or_exit-Moves, or_fatal-Moves, printed-Moves, show_ip_addresses-Moves) depth 14

  pxe_deny-Moves : Moves (keeps (λ s. s)) (pxe_deny K connect flags)
  unfolding pxe_deny
  pxe_deny-Moves = search (reads, or_fatal-Moves) depth 8

  -- Whatever its flags and its environment, and however it ends, neither of the two commands that
  -- show clusters and their addresses changes NetBox or Kubernetes; and the command that is
  -- documented to deny PXE changes nothing in Kubernetes.
  pub commands-change_nothing :
      (rows : List ClusterRow → Reply String) (addresses : List IpAddressRow → Reply String)
      (w : N.State × K.State)
      → ((cluster_show N K unmarshal connect env flags rows w).1 ≡ w)
        × ((ipaddr_show N K unmarshal connect env flags addresses w).1 ≡ w)
        × ((pxe_deny K connect flags w.1).1 ≡ w.1)
  commands-change_nothing rows addresses w =
      ((cluster_show-Moves rows).at w, (ipaddr_show-Moves addresses).at w, pxe_deny-Moves.at w.1)
