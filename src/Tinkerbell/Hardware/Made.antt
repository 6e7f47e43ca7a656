-- ===== src/Tinkerbell/Hardware/Made.antt =====
-- hardware.go: the object that `extractHardwareData` makes of a device, and what the code asks of
-- the device and of NetBox.
use machinecfg.Prelude.{
  String, ◌≡◌, ◌≢◌, ◌⊎◌, refl, ap, sym, some, true, false, List, [], ◌∷◌, All, inl, inr, ltb, ◌==◌,
  string_eq, arith, ℕ,
}
use machinecfg.Effect.Meets.{
  Meets, Meets-pure, Meets-if, Meets-bind, Meets-ask, Meets-raise, Meets-first-All, Meets-wrap,
  Anything, ReplyIn, ask-Meets, deref-Meets,
}
use machinecfg.Text.{to_lower}
use machinecfg.Netbox.{
  Netbox, Nullable, unset, null, value, Query, Device, IpAddress, Record, Brief, BriefAddress,
  IsNamed, get_nullable, is_set,
}
use machinecfg.Netbox.Pages.{IsShown, AnswersPrefixes}
use machinecfg.Kube.{Hardware, Dhcp}
use machinecfg.Common.Answers.{get_tagged_addresses_from_prefix_of_addr-Meets}
use machinecfg.Common.{get_system_disk_inventory_items}
use machinecfg.Tinkerbell.Hardware.Labels.{Meta, create_meta_from_device, labels_of, namespace_of}
use machinecfg.Tinkerbell.Hardware.{
  get_addr_from_cidr, get_mac_addr_from_iface_id, primary_mac, mac_of, tagged_texts, system_disks,
  non_empty_disks,
}

abbrev pub HasValue : {A : Type 0} → Nullable A → Type 0
HasValue unset = ⊥
HasValue null = ⊥
HasValue (value a) = Unit

-- A field that may be missing, but is not an explicit null.
abbrev pub IsNotNull : {A : Type 0} → Nullable A → Type 0
IsNotNull unset = Unit
IsNotNull null = ⊥
IsNotNull (value a) = Unit

pub HasValue-get_nullable :
    {A : Type 0} (field : Nullable A) → HasValue field → (a : A) × (get_nullable field ≡ some a)
HasValue-get_nullable unset h = absurd h
HasValue-get_nullable null h = absurd h
HasValue-get_nullable (value a) h = (a, refl)

pub IsNotNull-cases :
    {A : Type 0} (field : Nullable A)
    → IsNotNull field
    → (is_set field ≡ false) ⊎ (is_set field ≡ true) × HasValue field
IsNotNull-cases unset h = inl refl
IsNotNull-cases null h = absurd h
IsNotNull-cases (value a) h = inr (refl, tt)

-- A device of which the pointers that are read are not nil.
pub record IsReadable (device : Device) : Type 0 where
  pub named : IsNamed device
  pub primary_ip4 : IsNotNull device.primary_ip4
  pub primary_ip : HasValue device.primary_ip
  pub platform : HasValue device.platform

abbrev IsAssigned : IpAddress → Type 0
IsAssigned addr = (id : ℕ) × (addr.assigned_object_id ≡ some id)

-- NetBox answers the requests for prefixes, its lists show what they count, and the addresses that
-- it lists are assigned to an interface.
pub record Answers (N : Netbox) : Type 0 where
  pub prefixes : AnswersPrefixes N
  pub ip_addresses :
      (q : Query) (s : N.State)
      → ReplyIn (λ page. IsShown page × All IsAssigned page.results) (N.ip_addresses_list q s)

-- What an object has of its device.
pub record IsMadeOf (device : Device) (hw : Hardware) : Type 0 where
  pub name : device.name ≡ some hw.name
  pub labels :
      (serial : String) × (device.serial ≡ some serial) × (hw.labels ≡ labels_of device serial)
  pub namespace : hw.namespace ≡ namespace_of (get_nullable device.tenant)
  pub annotations : hw.annotations ≡ []
  pub disks : hw.disks ≢ []
  pub boots :
      (dhcp : Dhcp) × (platform : Brief) × (ip4 : BriefAddress) × (hw.interfaces
        ≡ record {
          dhcp = some dhcp;
          disable_dhcp = false;
          netboot = some (record { allow_pxe = some true; allow_workflow = some true });
        }
          ∷ [])
      × (hw.metadata
          ≡ some (record {
            hostname = hw.name;
            id = dhcp.mac;
            ips = dhcp.ip ∷ [];
            manufacturer_slug = to_lower device.manufacturer;
          }))
      × (dhcp.hostname ≡ hw.name)
      × (get_nullable device.platform ≡ some platform)
      × (dhcp.arch ≡ platform.name)
      × (get_nullable device.primary_ip4 ≡ some ip4)
      × (dhcp.ip.address ≡ get_addr_from_cidr ip4.address)

module _ (N : Netbox) (answers : Answers N) where
  get_mac_addr_from_iface_id-Meets :
      (id : ℕ) → Meets Unit Anything (get_mac_addr_from_iface_id N (some id))
  unfolding get_mac_addr_from_iface_id
  get_mac_addr_from_iface_id-Meets id = Meets-bind _ _ (deref-Meets id) λ id' _.
      Meets-bind _ _ (ask-Meets _) λ iface _.
        Meets-if (mac_of iface.primary_mac_address iface.mac_addresses == "") _ _
          (λ _. Meets-raise _) (λ _. Meets-pure _ tt)

  assigned_mac-Meets :
      (addr : IpAddress)
      → IsAssigned addr
      → Meets Unit Anything (get_mac_addr_from_iface_id N addr.assigned_object_id)
  assigned_mac-Meets addr (id, assigned) = rw assigned (get_mac_addr_from_iface_id-Meets id)

  pub primary_mac-Meets : (id : ℕ) → Meets Unit Anything (primary_mac N id)
  unfolding primary_mac
  primary_mac-Meets id =
      Meets-bind _ _ (Meets-wrap _ _ (Meets-ask _ (answers.ip_addresses _))) λ page shown.
        Meets-if (ltb 0 page.count) _ _
          (λ e.
            Meets-bind _ _ (Meets-first-All page.results (shown.0 (ground arith)) shown.1)
              λ addr assigned.
                Meets-bind _ _ (assigned_mac-Meets addr assigned) λ mac _. Meets-pure _ tt)
          (λ e. Meets-pure _ tt)

  pub tagged_texts-Meets : (tag address : String) → Meets Unit Anything (tagged_texts N tag address)
  unfolding tagged_texts
  tagged_texts-Meets tag address =
      Meets-bind _ _ (get_tagged_addresses_from_prefix_of_addr-Meets N answers.prefixes tag address)
        λ addresses _. Meets-pure _ tt

  non_empty_disks-Meets :
      (name : String) (items : List Record)
      → Meets Unit (λ disks. disks ≢ []) (non_empty_disks N name items)
  non_empty_disks-Meets name [] = Meets-raise _
  non_empty_disks-Meets name (item ∷ items) = Meets-pure _ (λ e. cc e)

  pub system_disks-Meets :
      (name : String) (id : ℕ) → Meets Unit (λ disks. disks ≢ []) (system_disks N name id)
  unfolding system_disks get_system_disk_inventory_items
  system_disks-Meets name id =
      Meets-bind _ _
        (Meets-wrap _ _ (Meets-bind _ _ (Meets-wrap _ _ (ask-Meets _)) λ page _. Meets-pure _ tt))
        λ items _. non_empty_disks-Meets name items

  -- What the labels of an object, its name and its namespace have of the device.
  abbrev pub IsMetaOf : Device → Meta → Type 0
  IsMetaOf device meta =
      (device.name ≡ some meta.name)
      × ((serial : String) × (device.serial ≡ some serial)
          × (meta.labels ≡ labels_of device serial))
      × (meta.namespace ≡ namespace_of (get_nullable device.tenant))

  pub create_meta_from_device-Meets :
      (device : Device)
      → IsNamed device
      → Meets {S = N.State} Unit (IsMetaOf device) (create_meta_from_device device)
  unfolding create_meta_from_device
  create_meta_from_device-Meets device ((name, named), (serial, numbered)) =
      rw (named, numbered)
        (Meets-bind _ _ (deref-Meets serial) λ serial' e.
          Meets-bind _ _ (deref-Meets name) λ name' e'.
            Meets-pure _ (ap some (sym e'), (serial, refl, ap (labels_of device) e), refl))
