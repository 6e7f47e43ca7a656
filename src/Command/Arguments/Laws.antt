-- ===== src/Command/Arguments/Laws.antt =====
-- What the other parts may rely on of arguments that were accepted.
use mathlib.Core.Bool.{false≢true}
use machinecfg.Prelude.{
  String, ◌⊎◌, inl, inr, ◌∙◌, sym, eq_iff, Bool-cases, ℕ, ◌<◌, ◌≡◌, refl, ◌≢◌, subst, Bool, true,
  false, not, ◌&&◌, ◌||◌, none, some, List, [], ◌∷◌, map, All, nat_beq_iff, ◌==◌, nat_eq, string_eq,
  if◌then◌else◌,
}
use machinecfg.Text.{itoa, int32_mod}
use machinecfg.Text.Decimal.{parse_int32-itoa, itoa-NonEmpty}
use machinecfg.Command.Arguments.{
  Flags, Environment, ConfigurationArgs, byte_length, rack_ids, is_fatal, process_root_args,
  args_of, or_else, first_or_true,
}

-- The value of a setting: that of the flag, or that of the environment if the flag is empty.
abbrev pub IsFrom : String → String → String → Type 0
IsFrom flag variable value = ((flag ≢ "") × (value ≡ flag)) ⊎ ((flag ≡ "") × (value ≡ variable))

-- What accepted arguments have: an endpoint, a token of forty bytes, and what is required of the
-- output directory and of the filters.
abbrev pub IsAccepted : Flags → Environment → Bool → Bool → ConfigurationArgs → Type 0
IsAccepted flags env require_output_directory need_device_filters args =
    IsFrom flags.netbox_endpoint env.netbox_endpoint args.endpoint
    × IsFrom flags.netbox_token env.netbox_token args.token
    × ((args.endpoint == "") ≡ false)
    × (byte_length args.token ≡ 40)
    × ((require_output_directory && args.output_directory == "") ≡ false)
    × ((need_device_filters && flags.sites == "") ≡ false)
    × ((need_device_filters && flags.roles == "") ≡ false)

or-false : (a b : Bool) → (a || b) ≡ false → (a ≡ false) × (b ≡ false)
or-false false b h = (refl, h)
or-false true b h = absurd (cc h)

not-false : (b : Bool) → not b ≡ false → b ≡ true
not-false true h = refl
not-false false h = absurd (cc h)

or_else-IsFrom : (flag variable : String) → IsFrom flag variable (or_else flag variable)
or_else-IsFrom flag variable = elim (Bool-cases (flag == "")) [
  | inl empty ↦ rw empty (inr ((eq_iff _ _).0 empty, refl))
  | inr given ↦ rw given (inl ((λ e. false≢true (sym given ∙ (eq_iff _ _).1 e)), refl))
]

is_fatal-false :
    (flags : Flags) (env : Environment) (require_output need : Bool)
    → is_fatal flags env require_output need ≡ false
    → IsAccepted flags env require_output need (args_of flags env)
unfolding is_fatal
is_fatal-false flags env require_output need h =
    let (h1, racks) = or-false _ _ h in
    let (h2, roles) = or-false _ _ h1 in
    let (h3, sites) = or-false _ _ h2 in
    let (h4, directory) = or-false _ _ h3 in
    let (endpoint, token) = or-false _ _ h4 in
    (
      or_else-IsFrom _ _,
      or_else-IsFrom _ _,
      endpoint,
      (nat_beq_iff _ _).0 (not-false _ token),
      directory,
      sites,
      roles,
    )

none≢some : {a : ConfigurationArgs} → none ≢ some a
none≢some h = cc h

some-injective : {a b : ConfigurationArgs} → some a ≡ some b → a ≡ b
some-injective h = cc h

-- Arguments that are accepted have an endpoint and a token of forty bytes, each from its flag, or
-- from its environment variable if the flag is empty, an output directory if one is required, and flags for the sites and the roles if
-- the filters are required.
pub process_root_args-IsAccepted :
    (flags : Flags) (env : Environment) (require_output : Bool) (require_filters : List Bool)
    (args : ConfigurationArgs)
    → process_root_args flags env require_output require_filters ≡ some args
    → IsAccepted flags env require_output (first_or_true require_filters) args
unfolding process_root_args
process_root_args-IsAccepted flags env require_output require_filters args h =
    go (is_fatal flags env require_output (first_or_true require_filters))
      (is_fatal-false flags env require_output (first_or_true require_filters)) h
  where
    go :
        (fatal : Bool)
        → (fatal ≡ false
            → IsAccepted flags env require_output
                (first_or_true require_filters)
                (args_of flags env))
        → (if fatal then none else some (args_of flags env)) ≡ some args
        → IsAccepted flags env require_output (first_or_true require_filters) args
    go true accepted e = absurd (none≢some e)
    go false accepted e =
        subst (IsAccepted flags env require_output (first_or_true require_filters))
          (some-injective e) (accepted refl)

-- Rack numbers that were printed are read back, in their order and with no error.
pub rack_ids-itoa :
    (ids : List ℕ) → All (λ i. i < int32_mod) ids → rack_ids (map itoa ids) ≡ (ids, false)
unfolding rack_ids
rack_ids-itoa [] h = refl
rack_ids-itoa (i ∷ ids) (small, h) =
    rw (itoa-NonEmpty i small, parse_int32-itoa i small, rack_ids-itoa ids h)
