-- ===== src/Command/Arguments.antt =====
-- root.go and hardware_sync.go: flags and environment checked and turned into arguments. `os.Exit`
-- is `none`.
pub mod Laws
use machinecfg.Prelude.{
  ℕ, ◌+◌, code, String, Bool, true, false, not, ◌&&◌, ◌||◌, Option, none, some, List, [], ◌∷◌, ltb,
  ◌==◌, nat_eq, string_eq, if◌then◌else◌,
}
use Prim.Native.String.{[], ◌∷◌}
use machinecfg.Effect.{Reply, good, bad}
use machinecfg.Text.{split, before, parse_int32}
use machinecfg.Common.Filters.{DeviceFilters}

-- The flags that are read, and the two variables of the environment that replace them.
pub record Flags : Type 0 where
  pub netbox_endpoint : String
  pub netbox_token : String
  pub output_directory : String
  pub regions : String
  pub sites : String
  pub locations : String
  pub racks : String
  pub tenants : String
  pub namespaces : String
  pub roles : String
  pub virtualization : Bool
  pub clusters : String

pub record Environment : Type 0 where
  pub netbox_endpoint : String
  pub netbox_token : String
  pub kubeconfig : String
  pub home : String

pub record ConfigurationArgs : Type 0 where
  pub endpoint : String
  pub token : String
  pub output_directory : String
  pub filters : DeviceFilters

-- `len` of a text, its number of bytes in UTF-8.
unfoldable pub byte_length : String → ℕ
byte_length [] = 0
byte_length (c ∷ s) =
    let rest = byte_length s in
    if ltb (code c) 0x80
    then 1 + rest
    else if ltb (code c) 0x800
    then 2 + rest
    else if ltb (code c) 0x10000
    then 3 + rest
    else 4 + rest

abbrev add_rack : Reply ℕ → List ℕ × Bool → List ℕ × Bool
add_rack (good id) (ids, invalid) = (id ∷ ids, invalid)
add_rack (bad e) (ids, invalid) = (ids, true)

-- The loop over the racks: their numbers, and whether one of them is none.
unfoldable pub rack_ids : List String → List ℕ × Bool
unfolding parse_int32
rack_ids [] = ([], false)
rack_ids (s ∷ ss) =
    let rest = rack_ids ss in if s == "" then rest else add_rack (parse_int32 s) rest

abbrev or_else : String → String → String
or_else s t = if s == "" then t else s

-- The tests that set `fatalError`.
unfoldable pub is_fatal : Flags → Environment → Bool → Bool → Bool
unfolding byte_length rack_ids split
is_fatal flags env require_output_directory need_device_filters =
    or_else flags.netbox_endpoint env.netbox_endpoint == ""
    || not (byte_length (or_else flags.netbox_token env.netbox_token) == 40)
    || (require_output_directory && flags.output_directory == "")
    || (need_device_filters && flags.sites == "")
    || (need_device_filters && flags.roles == "")
    || (rack_ids (split b',' flags.racks)).1

abbrev args_of : Flags → Environment → ConfigurationArgs
args_of flags env = record {
  endpoint = or_else flags.netbox_endpoint env.netbox_endpoint;
  token = or_else flags.netbox_token env.netbox_token;
  output_directory = flags.output_directory;
  filters = record {
    regions = split b',' flags.regions;
    sites = split b',' flags.sites;
    locations = split b',' flags.locations;
    racks = (rack_ids (split b',' flags.racks)).0;
    tenants = split b',' flags.tenants;
    roles = split b',' flags.roles;
    virtualisation = flags.virtualization;
    clusters = split b',' flags.clusters;
    status = [];
  };
}

-- `requireDeviceFilters` is variadic: without it, the filters are required.
abbrev first_or_true : List Bool → Bool
first_or_true [] = true
first_or_true (b ∷ bs) = b

unfoldable pub process_root_args : Flags → Environment → Bool → List Bool → Option ConfigurationArgs
unfolding is_fatal rack_ids split
process_root_args flags env require_output_directory require_device_filters =
    if is_fatal flags env require_output_directory (first_or_true require_device_filters)
    then none
    else some (args_of flags env)

-- The tenants, or else the namespaces; the first of them is wanted.
unfoldable pub get_namespace : Flags → Option String
unfolding before
get_namespace flags =
    let first = before b',' (or_else flags.tenants flags.namespaces) in
    if first == "" then none else some first

abbrev pub get_kubeconfig_path : Environment → String → String
get_kubeconfig_path env override =
    or_else override (or_else env.kubeconfig (Prim.Native.String.◌++◌ env.home "/.kube/config"))
