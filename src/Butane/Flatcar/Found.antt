-- ===== src/Butane/Flatcar/Found.antt =====
-- flatcar.go: the VLANs and the physical device that the interfaces of a device show, as NetBox lists
-- them in one state.
use machinecfg.Prelude.{◌<◌, String, ◌≡◌, ◌⊎◌, false, some, List, [], ◌∷◌, ◌++◌, Exists, ltb}
use machinecfg.Effect.{Reply, good, bad, Error}
use machinecfg.Netbox.{Netbox, Page, Param, Device, Interface, IpAddress, Prefix, Vlan}
use machinecfg.Butane.Config.{Config}
use machinecfg.Butane.Networkd.{Netdev, network_path}
use machinecfg.Butane.Networkd.Laws.{paths}
use machinecfg.Butane.Flatcar.Laws.{network_paths, netdev_paths}

-- The VLANs that are found so far, and the name of the physical device.
abbrev pub Found : Type 0
Found = List Netdev × String

abbrev pub prefixes_of : (N : Netbox) → IpAddress → N.State → Reply (Page Prefix)
prefixes_of N addr s = N.prefixes_list (Param.contains addr.address ∷ []) s

-- The first of the prefixes that NetBox lists for an address.
abbrev pub IsFirst : (N : Netbox) → N.State → IpAddress → Prefix → Type 0
IsFirst N s addr prefix =
    (page : Page Prefix) × (prefixes_of N addr s ≡ good page)
    × (0 < page.count)
    × ((rest : List Prefix) × (page.results ≡ prefix ∷ rest))

-- NetBox answers no prefix for an address.
abbrev pub HasNone : (N : Netbox) → N.State → IpAddress → Type 0
HasNone N s addr =
    ((e : Error) × (prefixes_of N addr s ≡ bad e))
    ⊎ ((page : Page Prefix) × (prefixes_of N addr s ≡ good page) × (ltb 0 page.count ≡ false))

abbrev pub IsTagged : Interface → Vlan → Type 0
IsTagged iface vlan = Exists (λ v. v.vid ≡ vlan.vid) iface.tagged_vlans

-- What an address of an interface adds: the VLAN of its first prefix, if that VLAN is one of the
-- tagged VLANs of the interface; and if the prefix has no such VLAN, the interface is the physical
-- device.
pub data AtAddress (N : Netbox) (s : N.State) (iface : Interface) (addr : IpAddress)
    : Found → Found → Type 0 where
  without_prefix : {found : Found} → HasNone N s addr → AtAddress N s iface addr found found
  with_vlan :
      {prefix : Prefix} {vlan : Vlan} {netdevs : List Netdev} {name : String}
      → IsFirst N s addr prefix
      → prefix.vlan ≡ some vlan
      → IsTagged iface vlan
      → AtAddress N s iface addr
          (netdevs, name)
          (netdevs ++ record { name = vlan.name; kind = "vlan"; id = vlan.vid } ∷ [], name)
  physical :
      {prefix : Prefix} {netdevs : List Netdev} {name : String}
      → IsFirst N s addr prefix
      → ((vlan : Vlan) → prefix.vlan ≡ some vlan → ¬ IsTagged iface vlan)
      → AtAddress N s iface addr (netdevs, name) (netdevs, iface.name)

-- What the addresses of an interface add, one after the other.
pub data AtAddresses (N : Netbox) (s : N.State) (iface : Interface)
    : List IpAddress → Found → Found → Type 0 where
  no_address : {found : Found} → AtAddresses N s iface [] found found
  next_address :
      {addr : IpAddress} {addresses : List IpAddress} {found found' found'' : Found}
      → AtAddress N s iface addr found found'
      → AtAddresses N s iface addresses found' found''
      → AtAddresses N s iface (addr ∷ addresses) found found''

-- What the interfaces add, with the addresses that NetBox lists for each of them.
pub data AtInterfaces (N : Netbox) (s : N.State) : List Interface → Found → Found → Type 0 where
  no_interface : {found : Found} → AtInterfaces N s [] found found
  next_interface :
      {iface : Interface} {ifaces : List Interface} {found found' found'' : Found}
      {page : Page IpAddress}
      → N.ip_addresses_list (Param.interface_id (iface.id ∷ []) ∷ []) s ≡ good page
      → AtAddresses N s iface page.results found found'
      → AtInterfaces N s ifaces found' found''
      → AtInterfaces N s (iface ∷ ifaces) found found''

-- The files of a configuration: a network file for each VLAN, a netdev file for each VLAN, then the
-- network file of the physical device and the two files on the device itself. The VLANs and the
-- name of the physical device are those of the interfaces that NetBox lists for the device.
abbrev pub IsComplete : (N : Netbox) → Device → N.State → Config → Type 0
IsComplete N device s config =
    (page : Page Interface) × (netdevs : List Netdev) × (name : String) × (N.interfaces_list
        (Param.device_id (device.id ∷ []) ∷ []) s
      ≡ good page)
    × AtInterfaces N s page.results ([], "") (netdevs, name)
    × (paths config.files
        ≡ (network_paths netdevs ++ netdev_paths netdevs)
          ++ network_path name ∷ "/etc/dcim.yaml" ∷ "/etc/hostname" ∷ [])
