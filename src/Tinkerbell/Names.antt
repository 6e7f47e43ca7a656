-- ===== src/Tinkerbell/Names.antt =====
-- The labels, annotations and status values that pkg/tinkerbell and the controllers share.
use machinecfg.Prelude.{String}

abbrev pub annotation_provisioned : String
annotation_provisioned = "v1alpha1.tinkerbell.org/provisioned"

abbrev pub label_netbox_device_id : String
label_netbox_device_id = "netbox-device-id"

abbrev pub status_active : String
status_active = "active"

abbrev pub status_staged : String
status_staged = "staged"
