-- ===== src/Tinkerbell/Hardware/Labels.antt =====
-- hardware.go: `createMetaFromDevice`.
use machinecfg.Prelude.{String, Option, none, some, [], ◌∷◌, Dict}
use machinecfg.Effect.{Exec, pure, deref, ◌>>=◌}
use machinecfg.Text.{itoa}
use machinecfg.Netbox.{Brief, Device, get_name, get_nullable}
use machinecfg.Tinkerbell.Names.{label_netbox_device_id}

pub record Meta : Type 0 where
  pub name : String
  pub namespace : String
  pub labels : Dict String

abbrev pub namespace_of : Option Brief → String
namespace_of none = "default"
namespace_of (some tenant) = tenant.slug

abbrev cluster_label : Option Brief → Dict String
cluster_label none = []
cluster_label (some cluster) = ("cluster", cluster.name) ∷ []

abbrev pub labels_of : Device → String → Dict String
labels_of device serial =
    ("generated-by", "machinecfg")
    ∷ (label_netbox_device_id, itoa device.id)
    ∷ ("serial", serial)
    ∷ ("model", device.model)
    ∷ ("role", device.role)
    ∷ ("site", device.site)
    ∷ ("location", get_name (get_nullable device.location))
    ∷ ("racks", get_name (get_nullable device.rack))
    ∷ ("tenant", get_name (get_nullable device.tenant))
    ∷ ("status", device.status_label)
    ∷ cluster_label (get_nullable device.cluster)

-- A nil serial or name is a nil pointer that is read.
unfoldable pub create_meta_from_device : {S : Type 0} → Device → Exec S Meta
create_meta_from_device device = do
  serial ← deref device.serial
  name ← deref device.name
  pure (record {
    name = name;
    namespace = namespace_of (get_nullable device.tenant);
    labels = labels_of device serial;
  })
