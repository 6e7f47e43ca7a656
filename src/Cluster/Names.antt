-- ===== src/Cluster/Names.antt =====
-- The constants of pkg/cluster, and the kinds of objects that it reads from Kubernetes.
use machinecfg.Prelude.{ℕ, String}
use machinecfg.Kube.{Gvk}

abbrev pub service_template_name : String
service_template_name = "Kubernetes endpoint"

abbrev pub default_control_plane_port : ℕ
default_control_plane_port = 6443

abbrev pub managed_type_slug : String
managed_type_slug = "managed-kubernetes"

abbrev pub standalone_type_slug : String
standalone_type_slug = "standalone-kubernetes"

abbrev pub headnode_role_slug : String
headnode_role_slug = "headnode"

abbrev pub cilium_lb_ip_annotation : String
cilium_lb_ip_annotation = "io.cilium/lb-ipam-ips"

abbrev pub kamaji_control_plane_gvk : Gvk
kamaji_control_plane_gvk = record {
  group = "controlplane.cluster.x-k8s.io";
  version = "v1alpha1";
  kind = "KamajiControlPlane";
}

abbrev pub capi_cluster_gvk : Gvk
capi_cluster_gvk = record { group = "cluster.x-k8s.io"; version = "v1beta1"; kind = "Cluster" }

abbrev pub stateful_set_list_gvk : Gvk
stateful_set_list_gvk = record { group = "apps"; version = "v1"; kind = "StatefulSetList" }

abbrev pub tailscale_expose_annotation : String
tailscale_expose_annotation = "tailscale.com/expose"

abbrev pub tailscale_hostname_annotation : String
tailscale_hostname_annotation = "tailscale.com/hostname"

abbrev pub tailscale_namespace : String
tailscale_namespace = "tailscale"

abbrev pub tailscale_parent_resource_label : String
tailscale_parent_resource_label = "tailscale.com/parent-resource"

abbrev pub tailscale_parent_resource_ns_label : String
tailscale_parent_resource_ns_label = "tailscale.com/parent-resource-ns"
