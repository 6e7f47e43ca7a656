-- ===== src/Tooling/SeedAuthentik.antt =====
-- tooling/seed-authentik/main.go: the service accounts of the two controllers, with their groups in
-- Authentik and their users, permissions and tokens in NetBox.
pub mod Client
pub mod Laws
use Prim.Native.String.{[], ◌∷◌, char_at}
use machinecfg.Prelude.{
  ℕ, ◌/◌, ◌%◌, String, ◌<>◌, Bool, true, false, Option, none, some, List, [], ◌∷◌, Dict, insert,
  ltb, ◌==◌, string_eq, if◌then◌else◌,
}
use machinecfg.Effect.{Exec, pure, ask, tell, first, wrap, ◌>>=◌, ◌>>◌}
use machinecfg.Text.{itoa}
use machinecfg.Tooling.SeedAuthentik.Client.{Servers}

pub record PermissionSpec : Type 0 where
  pub name : String
  pub object_types : List String
  pub actions : List String

pub record ControllerSpec : Type 0 where
  pub username : String
  pub group : String
  pub perms : List PermissionSpec

abbrev pub netbox_updater : String
netbox_updater = "machinecfg-netbox-updater"

abbrev pub kubernetes_updater : String
kubernetes_updater = "machinecfg-kubernetes-updater"

abbrev pub netbox_updater_account : ControllerSpec
netbox_updater_account = record {
  username = netbox_updater;
  group = netbox_updater;
  perms =
      record {
        name = "machinecfg-netbox-updater-device";
        object_types = "dcim.device" ∷ [];
        actions = "view" ∷ "change" ∷ [];
      }
      ∷ record {
        name = "machinecfg-netbox-updater-ipam";
        object_types = "ipam.ipaddress" ∷ "ipam.fhrpgroup" ∷ "ipam.fhrpgroupassignment" ∷ [];
        actions = "view" ∷ "add" ∷ "change" ∷ "delete" ∷ [];
      }
      ∷ [];
}

abbrev pub kubernetes_updater_account : ControllerSpec
kubernetes_updater_account = record {
  username = kubernetes_updater;
  group = kubernetes_updater;
  perms =
      record {
        name = "machinecfg-kubernetes-updater-read";
        object_types = "dcim.device" ∷ "ipam.ipaddress" ∷ "dcim.interface" ∷ [];
        actions = "view" ∷ [];
      }
      ∷ [];
}

abbrev pub controllers : List ControllerSpec
controllers = netbox_updater_account ∷ kubernetes_updater_account ∷ []

-- What stands for the key of a token that exists.
abbrev pub unknown_key : String
unknown_key = "<existing-token-key-not-retrievable>"

-- `hex.EncodeToString`
unfoldable pub hex_encode : List ℕ → String
hex_encode [] = ""
hex_encode (b ∷ bs) =
    char_at "0123456789abcdef" (b / 16 % 16) ∷ char_at "0123456789abcdef" (b % 16) ∷ hex_encode bs

module _ (A : Servers) where
  abbrev first_or : {B : Type 0} → Exec A.State B → List B → Exec A.State B
  first_or create [] = create
  first_or create (x ∷ xs) = pure x

  unfoldable pub random_hex : ℕ → Exec A.State String
  unfolding hex_encode
  random_hex n = do bytes ← tell (A.random_bytes n); pure (hex_encode bytes)

  unfoldable pub ensure_authentik_service_account : String → Exec A.State ℕ
  ensure_authentik_service_account username = do
    users ← wrap (λ t. "list users: " <> t) (ask (A.users_by_username username))
    first_or
        (wrap (λ t. "create service account " <> username <> ": " <> t)
          (tell (A.users_create username username "service_account")))
        users

  unfoldable pub ensure_authentik_group : String → Exec A.State String
  ensure_authentik_group name = do
    groups ← wrap (λ t. "list groups: " <> t) (ask (A.groups_by_name name))
    first_or (wrap (λ t. "create group " <> name <> ": " <> t) (tell (A.groups_create name))) groups

  abbrev pub add_unless_in : String → ℕ → List String → Exec A.State (Unit {0})
  add_unless_in group user_id [] =
      wrap (λ t. "add user " <> itoa user_id <> " to group " <> group <> ": " <> t)
        (tell (A.groups_add_user group user_id))
  add_unless_in group user_id (g ∷ gs) =
      let rest = add_unless_in group user_id gs in if g == group then pure tt else rest

  unfoldable pub ensure_authentik_user_in_group : String → ℕ → Exec A.State (Unit {0})
  ensure_authentik_user_in_group group user_id = do
    groups ←
        wrap (λ t. "list groups for user " <> itoa user_id <> ": " <> t)
          (ask (A.groups_by_members (user_id ∷ [])))
    add_unless_in group user_id groups

  unfoldable pub ensure_netbox_user : String → Exec A.State ℕ
  unfolding random_hex
  ensure_netbox_user username = do
    users ← wrap (λ t. "list users: " <> t) (ask (A.netbox_users_list (username ∷ [])))
    if ltb 0 users.count then first users.results else (do
      password ← wrap (λ t. "generate password: " <> t) (random_hex 16)
      wrap (λ t. "create user " <> username <> ": " <> t)
          (tell (A.netbox_users_create username password)))

  unfoldable pub ensure_netbox_permission : PermissionSpec → ℕ → Exec A.State (Unit {0})
  ensure_netbox_permission spec user_id = do
    found ← wrap (λ t. "list permissions: " <> t) (ask (A.permissions_list (spec.name ∷ [])))
    if ltb 0 found.count then pure tt else (do
      created ←
          wrap (λ t. "create permission " <> spec.name <> ": " <> t)
            (tell (A.permissions_create spec.name spec.object_types spec.actions (user_id ∷ [])))
      pure tt)

  unfoldable pub ensure_netbox_token : ℕ → String → Exec A.State String
  unfolding random_hex
  ensure_netbox_token user_id username = do
    found ← wrap (λ t. "list tokens: " <> t) (ask (A.tokens_list (username ∷ [])))
    if ltb 0 found.count then pure unknown_key else (do
      key ← wrap (λ t. "generate token key: " <> t) (random_hex 20)
      created ←
          wrap (λ t. "create token for user " <> username <> ": " <> t)
            (tell (A.tokens_create user_id key))
      pure key)

  unfoldable pub ensure_permissions : List PermissionSpec → ℕ → Exec A.State (Unit {0})
  unfolding ensure_netbox_permission
  ensure_permissions [] user_id = pure tt
  ensure_permissions (spec ∷ specs) user_id =
      ensure_netbox_permission spec user_id >> ensure_permissions specs user_id

  -- The body of the loop of `main`: the token of a controller.
  unfoldable pub seed_controller : ControllerSpec → Exec A.State String
  unfolding ensure_authentik_service_account ensure_authentik_group ensure_authentik_user_in_group
      ensure_netbox_user ensure_permissions ensure_netbox_token
  seed_controller spec = do
    authentik_user ← ensure_authentik_service_account spec.username
    group ← ensure_authentik_group spec.group
    (ensure_authentik_user_in_group group authentik_user >> (do
      netbox_user ← ensure_netbox_user spec.username
      (ensure_permissions spec.perms netbox_user >> ensure_netbox_token netbox_user spec.username)))

  -- The loop: the tokens by user name. It ends at the first error.
  unfoldable pub seed_controllers : List ControllerSpec → Dict String → Exec A.State (Dict String)
  unfolding seed_controller
  seed_controllers [] tokens = pure tokens
  seed_controllers (spec ∷ specs) tokens = do
    token ← seed_controller spec
    seed_controllers specs (insert spec.username token tokens)

  -- What `main` does with its clients: the tokens that it prints.
  unfoldable pub seed : Exec A.State (Dict String)
  unfolding seed_controllers
  seed = seed_controllers controllers []

-- The first of the required variables that is empty.
unfoldable pub missing_variable : List (String × String) → Option String
missing_variable [] = none
missing_variable ((name, value) ∷ vars) = if value == "" then some name else missing_variable vars
