-- ===== src/Tooling/SeedAuthentik/Client.antt =====
-- The requests that seed-authentik makes of Authentik and of NetBox, and its random source. What
-- they answer is a parameter; of an answer only the number or the UUID of the object is read.
use machinecfg.Prelude.{ℕ, String, List}
use machinecfg.Effect.{Reply}
use machinecfg.Netbox.{Page}

pub record Servers : Type 1 where
  pub State : Type 0
  -- Authentik's lists have no count.
  pub users_by_username : String → State → Reply (List ℕ)
  pub users_create : String → String → String → State → Reply ℕ × State
  pub groups_by_name : String → State → Reply (List String)
  pub groups_by_members : List ℕ → State → Reply (List String)
  pub groups_create : String → State → Reply String × State
  pub groups_add_user : String → ℕ → State → Reply (Unit {0}) × State
  pub netbox_users_list : List String → State → Reply (Page ℕ)
  pub netbox_users_create : String → String → State → Reply ℕ × State
  pub permissions_list : List String → State → Reply (Page ℕ)
  pub permissions_create : String → List String → List String → List ℕ → State → Reply ℕ × State
  pub tokens_list : List String → State → Reply (Page ℕ)
  pub tokens_create : ℕ → String → State → Reply ℕ × State
  -- `rand.Read` into a slice of that many bytes
  pub random_bytes : ℕ → State → Reply (List ℕ) × State
