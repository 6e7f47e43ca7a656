-- ===== src/Tooling/SeedNetbox/Client.antt =====
-- The requests that seed-netbox makes of NetBox. What they answer is a parameter; of an answer only
-- the number of the object is read.
use machinecfg.Prelude.{ℕ, String, List}
use machinecfg.Effect.{Reply}
use machinecfg.Netbox.{Page}

-- A list request with its filters.
pub data Listing : Type 0 where
  tenants sites device_roles manufacturers device_types prefixes ip_addresses devices :
      List String → Listing
  interfaces : List ℕ → List String → Listing

-- A create request with the fields that the code sets.
pub data Request : Type 0 where
  tenant manufacturer : String → String → Request
  site : String → String → ℕ → Request
  device_role : String → String → String → Request
  device_type : ℕ → String → String → Request
  prefix : String → Request
  interface : ℕ → String → String → Request
  ip_address : String → String → ℕ → Request
  device : String → ℕ → ℕ → ℕ → String → ℕ → Request

pub record SeedClient : Type 1 where
  pub State : Type 0
  pub list : Listing → State → Reply (Page ℕ)
  pub create : Request → State → Reply ℕ × State
  pub set_primary_ip4 : ℕ → ℕ → State → Reply ℕ × State
