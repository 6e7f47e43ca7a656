-- ===== src/Tooling/SeedAuthentik/Laws.antt =====
-- The tokens that seed-authentik prints.
use Prim.Native.String.{[], ◌∷◌}
use machinecfg.Prelude.{
  ℕ, suc, ◌+◌, String, ◌≡◌, refl, ◌⊎◌, inl, inr, List, [], ◌∷◌, Dict, length, ltb, arith, ◌==◌,
  string_eq,
}
use machinecfg.Effect.{Exec}
use machinecfg.Effect.Meets.{
  Meets, Meets-pure, Meets-tell, Meets-ask, Meets-wrap, Meets-bind, Meets-if, Anything, ReplyIn,
  EndsIn, ask-Meets, tell-Meets,
}
use machinecfg.Netbox.Pages.{IsShown, first-Meets}
use machinecfg.Tooling.SeedAuthentik.Client.{Servers}
use machinecfg.Tooling.SeedAuthentik.{
  PermissionSpec, ControllerSpec, netbox_updater, kubernetes_updater, unknown_key,
  netbox_updater_account, kubernetes_updater_account, hex_encode, first_or, random_hex,
  ensure_authentik_service_account, ensure_authentik_group, add_unless_in,
  ensure_authentik_user_in_group, ensure_netbox_user, ensure_netbox_permission, ensure_netbox_token,
  ensure_permissions, seed_controller, seed_controllers, seed,
}

-- What the random source and NetBox document: a read fills its slice, and a page that counts a user
-- shows one.
pub record Documented (A : Servers) : Type 0 where
  pub filled :
      (n : ℕ) (s : A.State) → ReplyIn (λ (bytes : List ℕ). length bytes ≡ n) (A.random_bytes n s).0
  pub shown : (names : List String) (s : A.State) → ReplyIn IsShown (A.netbox_users_list names s)

abbrev pub characters : String → ℕ
characters [] = 0
characters (c ∷ s) = suc (characters s)

-- A new key of 40 characters, or what stands for the key of a token that exists.
abbrev pub IsToken : String → Type 0
IsToken token = (characters token ≡ 40) ⊎ (token ≡ unknown_key)

-- One token for each controller.
abbrev pub AreTokens : Dict String → Type 0
AreTokens tokens =
    (first : String) × (second : String) × (tokens
      ≡ (netbox_updater, first) ∷ (kubernetes_updater, second) ∷ [])
    × IsToken first
    × IsToken second

hex_encode-characters :
    (bytes : List ℕ) → characters (hex_encode bytes) ≡ length bytes + length bytes
unfolding hex_encode
hex_encode-characters [] = refl
hex_encode-characters (b ∷ bytes) = omega (arith, hex_encode-characters bytes)

module _ (A : Servers) (laws : Documented A) where
  random_hex-Meets : (n : ℕ) → Meets Unit (λ key. characters key ≡ n + n) (random_hex A n)
  unfolding random_hex
  random_hex-Meets n =
      Meets-bind _ _ (Meets-tell _ (laws.filled n))
        λ bytes h. Meets-pure _ (omega (arith, h, hex_encode-characters bytes))

  first_or-Meets :
      {B : Type 0} (m : Exec A.State B) (xs : List B)
      → Meets Unit Anything m
      → Meets Unit Anything (first_or A m xs)
  first_or-Meets m [] h = h
  first_or-Meets m (x ∷ xs) h = Meets-pure _ tt

  ensure_authentik_service_account-Meets :
      (name : String) → Meets Unit Anything (ensure_authentik_service_account A name)
  unfolding ensure_authentik_service_account
  ensure_authentik_service_account-Meets name =
      Meets-bind _ _ (Meets-wrap _ _ (ask-Meets _))
        λ users _. first_or-Meets _ users (Meets-wrap _ _ (tell-Meets _))

  ensure_authentik_group-Meets :
      (name : String) → Meets Unit Anything (ensure_authentik_group A name)
  unfolding ensure_authentik_group
  ensure_authentik_group-Meets name =
      Meets-bind _ _ (Meets-wrap _ _ (ask-Meets _))
        λ groups _. first_or-Meets _ groups (Meets-wrap _ _ (tell-Meets _))

  add_unless_in-Meets :
      (group : String) (user : ℕ) (groups : List String)
      → Meets Unit Anything (add_unless_in A group user groups)
  add_unless_in-Meets group user [] = Meets-wrap _ _ (tell-Meets _)
  add_unless_in-Meets group user (g ∷ groups) =
      Meets-if (g == group) _ _ (λ _. Meets-pure _ tt) (λ _. add_unless_in-Meets group user groups)

  ensure_authentik_user_in_group-Meets :
      (group : String) (user : ℕ)
      → Meets Unit Anything (ensure_authentik_user_in_group A group user)
  unfolding ensure_authentik_user_in_group
  ensure_authentik_user_in_group-Meets group user =
      Meets-bind _ _ (Meets-wrap _ _ (ask-Meets _))
        λ groups _. add_unless_in-Meets group user groups

  ensure_netbox_user-Meets : (name : String) → Meets Unit Anything (ensure_netbox_user A name)
  unfolding ensure_netbox_user
  ensure_netbox_user-Meets name =
      Meets-bind _ _ (Meets-wrap _ _ (Meets-ask _ (laws.shown _))) λ users h.
        Meets-if (ltb 0 users.count) _ _ (λ e. first-Meets users (ground arith) h)
          (λ _.
            Meets-bind _ _ (Meets-wrap _ _ (random_hex-Meets 16))
              λ password _. Meets-wrap _ _ (tell-Meets _))

  ensure_permissions-Meets :
      (specs : List PermissionSpec) (user : ℕ)
      → Meets Unit Anything (ensure_permissions A specs user)
  unfolding ensure_permissions ensure_netbox_permission
  ensure_permissions-Meets [] user = Meets-pure _ tt
  ensure_permissions-Meets (spec ∷ specs) user =
      Meets-bind {Q = Anything} _ _
        (Meets-bind _ _ (Meets-wrap _ _ (ask-Meets _)) λ found _.
          Meets-if (ltb 0 found.count) _ _ (λ _. Meets-pure _ tt)
            (λ _. Meets-bind _ _ (Meets-wrap _ _ (tell-Meets _)) λ created _. Meets-pure _ tt))
        λ done _. ensure_permissions-Meets specs user

  ensure_netbox_token-Meets :
      (user : ℕ) (name : String) → Meets Unit IsToken (ensure_netbox_token A user name)
  unfolding ensure_netbox_token
  ensure_netbox_token-Meets user name = Meets-bind _ _ (Meets-wrap _ _ (ask-Meets _)) λ found _.
      Meets-if (ltb 0 found.count) _ _ (λ _. Meets-pure _ (inr refl))
        (λ _.
          Meets-bind _ _ (Meets-wrap _ _ (random_hex-Meets 20)) λ key h.
            Meets-bind _ _ (Meets-wrap _ _ (tell-Meets _)) λ created _. Meets-pure _ (inl h))

  seed_controller-Meets : (spec : ControllerSpec) → Meets Unit IsToken (seed_controller A spec)
  unfolding seed_controller
  seed_controller-Meets spec =
      Meets-bind _ _ (ensure_authentik_service_account-Meets spec.username) λ account _.
        Meets-bind _ _ (ensure_authentik_group-Meets spec.group) λ group _.
          Meets-bind _ _ (ensure_authentik_user_in_group-Meets group account) λ added _.
            Meets-bind _ _ (ensure_netbox_user-Meets spec.username) λ user _.
              Meets-bind _ _ (ensure_permissions-Meets spec.perms user)
                λ done _. ensure_netbox_token-Meets user spec.username

  seed-Meets : Meets Unit AreTokens (seed A)
  unfolding seed seed_controllers
  seed-Meets = Meets-bind _ _ (seed_controller-Meets netbox_updater_account) λ first h.
      Meets-bind _ _ (seed_controller-Meets kubernetes_updater_account)
        λ second k. Meets-pure _ (first, second, refl, h, k)

  -- If the random source fills what it is asked for, and a page that counts a user shows one,
  -- seed-authentik never panics: it fails, or gives one token for each of the two controllers under
  -- its user name, and each token is a new key of 40 characters or the text that stands for the key
  -- of a token that exists.
  pub seed-AreTokens : (s : A.State) → EndsIn Unit AreTokens (seed A s).0
  seed-AreTokens s = seed-Meets.at s
