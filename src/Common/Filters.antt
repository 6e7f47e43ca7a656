-- ===== src/Common/Filters.antt =====
-- pkg/common/filters.go, and the part of `GetDevices` that turns filters into parameters.
use machinecfg.Prelude.{
  ℕ, String, Bool, true, false, not, List, [], ◌∷◌, ◌++◌, ◌==◌, nat_eq, string_eq,
}
use machinecfg.Netbox.{Param, Query}

pub record DeviceFilters : Type 0 where
  pub regions : List String
  pub sites : List String
  pub locations : List String
  pub racks : List ℕ
  pub tenants : List String
  pub roles : List String
  pub virtualisation : Bool
  pub clusters : List String
  pub status : List String

-- `len(xs) > 0 && xs[0] != ""`
abbrev pub given : List String → Bool
given [] = false
given (x ∷ xs) = not (x == "")

-- `len(xs) > 0 && xs[0] != 0`
abbrev pub given_racks : List ℕ → Bool
given_racks [] = false
given_racks (x ∷ xs) = not (x == 0)

-- A parameter is set only if its filter is given.
abbrev pub when : Bool → Param → Query
when true p = p ∷ []
when false p = []

abbrev pub base_params : DeviceFilters → Query
base_params filters = Param.has_primary_ip true ∷ Param.status filters.status ∷ []

abbrev pub filter_params : DeviceFilters → Query
filter_params filters =
    when (given filters.sites) (Param.site filters.sites)
    ++ when (given filters.roles) (Param.role filters.roles)
    ++ when (given filters.regions) (Param.region filters.regions)
    ++ when (given filters.locations) (Param.location filters.locations)
    ++ when (given filters.tenants) (Param.tenant filters.tenants)
    ++ when (given_racks filters.racks) (Param.rack_id filters.racks)
