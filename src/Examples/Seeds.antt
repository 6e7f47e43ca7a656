-- ===== src/Examples/Seeds.antt =====
-- The theorems on the seeding of servers, on servers that keep what they are given.
use machinecfg.Prelude.{
  sym, ◌≢◌, nat_beq_iff, nat_eq, ◌&&◌, false, ℕ, zero, suc, ◌+◌, String, ◌≡◌, refl, ◌∙◌, ap, subst,
  Bool, true, inl, inr, Bool-cases, List, [], ◌∷◌, ◌++◌, length, arith, ◌==◌, string_eq,
  if◌then◌else◌,
}
use text.Mathlib.TextEquality.{eq_iff}
use mathlib.Core.List.{append-nil}
use machinecfg.Effect.Repeats.{Answered}
use machinecfg.Effect.{good, ok, ◌>>=◌}
use machinecfg.Effect.Meets.{EndsIn}
use machinecfg.Text.{itoa, print_digits, digit}
use machinecfg.Netbox.{Page}
use machinecfg.Netbox.FindOrCreate.Laws.{ShowsCreated}
use machinecfg.Tooling.SeedNetbox.Client.{SeedClient, Listing, Request}
use machinecfg.Tooling.SeedNetbox.{seed}
use machinecfg.Tooling.SeedNetbox.Laws.{Lists, KeepsObjects, RefusesAddress}
use machinecfg.Tooling.SeedNetbox.Laws.Twice.{seed-twice}
use machinecfg.Tooling.SeedAuthentik.Client.{Servers}
use machinecfg.Tooling.SeedAuthentik
use machinecfg.Tooling.SeedAuthentik.Laws.{Documented, AreTokens, seed-AreTokens}
use machinecfg.Examples.{page_of}

-- What an object is found by: the number of its kind, its device, and its name.
abbrev Key : Type 0
Key = ℕ × ℕ × String

abbrev key_of : Request → Key
key_of (Request.tenant name slug) = (0, 0, name)
key_of (Request.manufacturer name slug) = (1, 0, name)
key_of (Request.site name slug tenant) = (2, 0, name)
key_of (Request.device_role name slug color) = (3, 0, name)
key_of (Request.device_type manufacturer model slug) = (4, 0, model)
key_of (Request.prefix text) = (5, 0, text)
key_of (Request.interface device name kind) = (6, device, name)
key_of (Request.ip_address address kind owner) = (7, 0, address)
key_of (Request.device name device_type role site status tenant) = (8, 0, name)

abbrev first_text : List String → String
first_text [] = ""
first_text (t ∷ ts) = t

abbrev first_id : List ℕ → ℕ
first_id [] = 0
first_id (n ∷ ns) = n

abbrev key_of_list : Listing → Key
key_of_list (Listing.tenants names) = (0, 0, first_text names)
key_of_list (Listing.manufacturers names) = (1, 0, first_text names)
key_of_list (Listing.sites names) = (2, 0, first_text names)
key_of_list (Listing.device_roles names) = (3, 0, first_text names)
key_of_list (Listing.device_types models) = (4, 0, first_text models)
key_of_list (Listing.prefixes texts) = (5, 0, first_text texts)
key_of_list (Listing.interfaces devices names) = (6, first_id devices, first_text names)
key_of_list (Listing.ip_addresses addresses) = (7, 0, first_text addresses)
key_of_list (Listing.devices names) = (8, 0, first_text names)

abbrev list_with : ℕ → ℕ → String → Listing
list_with zero device name = Listing.tenants (name ∷ [])
list_with (suc zero) device name = Listing.manufacturers (name ∷ [])
list_with (suc (suc zero)) device name = Listing.sites (name ∷ [])
list_with (suc (suc (suc zero))) device name = Listing.device_roles (name ∷ [])
list_with (suc (suc (suc (suc zero)))) device name = Listing.device_types (name ∷ [])
list_with (suc (suc (suc (suc (suc zero))))) device name = Listing.prefixes (name ∷ [])
list_with (suc (suc (suc (suc (suc (suc zero)))))) device name =
    Listing.interfaces (device ∷ []) (name ∷ [])
list_with (suc (suc (suc (suc (suc (suc (suc zero))))))) device name =
    Listing.ip_addresses (name ∷ [])
list_with (suc (suc (suc (suc (suc (suc (suc (suc kind)))))))) device name =
    Listing.devices (name ∷ [])

abbrev list_of : Key → Listing
list_of key = list_with key.0 key.1 key.2

same_key : {l : Listing} {r : Request} → Lists l r → key_of_list l ≡ key_of r
same_key (Lists.tenants name slug) = refl
same_key (Lists.sites name slug tenant) = refl
same_key (Lists.device_roles name slug color) = refl
same_key (Lists.manufacturers name slug) = refl
same_key (Lists.device_types manufacturer model slug) = refl
same_key (Lists.prefixes text) = refl
same_key (Lists.interfaces device name kind) = refl
same_key (Lists.ip_addresses address kind owner) = refl
same_key (Lists.devices name device_type role site status tenant) = refl

list_of-key_of : {l : Listing} {r : Request} → Lists l r → list_of (key_of_list l) ≡ l
list_of-key_of (Lists.tenants name slug) = refl
list_of-key_of (Lists.sites name slug tenant) = refl
list_of-key_of (Lists.device_roles name slug color) = refl
list_of-key_of (Lists.manufacturers name slug) = refl
list_of-key_of (Lists.device_types manufacturer model slug) = refl
list_of-key_of (Lists.prefixes text) = refl
list_of-key_of (Lists.interfaces device name kind) = refl
list_of-key_of (Lists.ip_addresses address kind owner) = refl
list_of-key_of (Lists.devices name device_type role site status tenant) = refl

abbrev same : Key → Key → Bool
same k j = k.0 == j.0 && (k.1 == j.1 && k.2 == j.2)

both-true : (a b : Bool) → a && b ≡ true → (a ≡ true) × (b ≡ true)
both-true true b h = (refl, h)
both-true false b h = absurd (cc h)

same-true : (k j : Key) → same k j ≡ true → k ≡ j
same-true (kind, device, name) (kind', device', name') h =
    let (kinds, more) = both-true _ _ h in
    let (devices, names) = both-true _ _ more in
    let a = (nat_beq_iff kind kind').0 kinds in
    let b = (nat_beq_iff device device').0 devices in
    let c = (eq_iff name name').0 names in
    ap (λ x. (x, device, name)) a ∙ ap (λ x. (kind', x, name)) b ∙ ap (λ x. (kind', device', x)) c

same_refl : (k : Key) → same k k ≡ true
same_refl (kind, device, name) =
    rw
      (
        (nat_beq_iff kind kind).1 refl,
        (nat_beq_iff device device).1 refl,
        (eq_iff name name).1 refl,
      )
      refl

-- The keys of the objects, the oldest first, and the numbers of those that have a key.
abbrev ids_of : Key → List Key → ℕ → List ℕ
ids_of key [] n = []
ids_of key (k ∷ ks) n = let rest = ids_of key ks (suc n) in if same k key then n ∷ rest else rest

abbrev seed_client : SeedClient
seed_client = record {
  State = List Key;
  list = λ l s. good (page_of (ids_of (key_of_list l) s 1));
  create = λ r s. (good (length s + 1), s ++ key_of r ∷ []);
  set_primary_ip4 = λ device ip s. (good device, s);
}

ids_of-append :
    (key new : Key) (ks : List Key) (n : ℕ)
    → ids_of key (ks ++ new ∷ []) n
      ≡ ids_of key ks n ++ (if same new key then (length ks + n) ∷ [] else [])
ids_of-append key new [] n =
    let from_zero : n ≡ 0 + n = omega arith in
    ap (λ (m : ℕ). if same new key then m ∷ [] else []) from_zero
ids_of-append key new (k ∷ ks) n =
    let rest : ids_of key (ks ++ new ∷ []) (suc n)
        ≡ ids_of key ks (suc n) ++ (if same new key then (suc (length ks) + n) ∷ [] else []) =
      subst
        (λ m.
          ids_of key (ks ++ new ∷ []) (suc n)
          ≡ ids_of key ks (suc n) ++ (if same new key then m ∷ [] else []))
        (omega arith) (ids_of-append key new ks (suc n)) in
    elim (Bool-cases (same k key)) [ inl e ↦ rw (e, rest) refl | inr e ↦ rw (e, rest) refl ]

good-same : {A : Type 0} {a b : A} → good a ≡ good b → a ≡ b
good-same h = cc h

is_empty : (xs : List ℕ) → length xs ≡ 0 → xs ≡ []
is_empty [] h = refl
is_empty (x ∷ xs) h = absurd (omega (arith, h))

seed_client-created :
    (l : Listing) (r : Request)
    → Lists l r
    → ShowsCreated (seed_client.list l) (seed_client.create r)
seed_client-created l r listed s page id shown none_counted done =
    let key = key_of_list l in
    let none_before : ids_of key s 1 ≡ [] =
      is_empty _ (ap (λ (p : Page ℕ). p.count) (good-same shown) ∙ none_counted) in
    let matches : same (key_of r) key ≡ true =
      subst (λ k. same (key_of r) k ≡ true) (sym (same_key listed)) (same_refl (key_of r)) in
    let after : ids_of key (s ++ key_of r ∷ []) 1 ≡ id ∷ [] =
      ids_of-append key (key_of r) s 1
      ∙ ap (λ ids. ids ++ (if same (key_of r) key then (length s + 1) ∷ [] else [])) none_before
      ∙ ap (λ (b : Bool). if b then (length s + 1) ∷ [] else []) matches
      ∙ ap (λ (m : ℕ). m ∷ []) (good-same done) in
    (0, [], ap (λ ids. good (page_of ids)) after)

seed_client-apart :
    (l l' : Listing) (r r' : Request)
    → Lists l r
    → Lists l' r'
    → l' ≢ l
    → (s : List Key) → seed_client.list l' (s ++ key_of r ∷ []) ≡ seed_client.list l' s
seed_client-apart l l' r r' listed exact other s =
    let key = key_of_list l' in
    let differs : same (key_of r) key ≡ false = elim (Bool-cases (same (key_of r) key)) [
      | inl e ↦
          let keys = sym (same-true (key_of r) key e) ∙ sym (same_key listed) in
          absurd (other (sym (list_of-key_of exact) ∙ ap list_of keys ∙ list_of-key_of listed))
      | inr e ↦ e
    ] in
    let after : ids_of key (s ++ key_of r ∷ []) 1 ≡ ids_of key s 1 =
      ids_of-append key (key_of r) s 1
      ∙ ap (λ (b : Bool). ids_of key s 1 ++ (if b then (length s + 1) ∷ [] else [])) differs
      ∙ append-nil (ids_of key s 1) in
    ap (λ (ids : List ℕ). good (page_of ids)) after

seed_client-KeepsObjects : KeepsObjects seed_client
seed_client-KeepsObjects = record {
  created = seed_client-created;
  apart =
      λ l l' r r' listed exact other s id shown. seed_client-apart l l' r r' listed exact other s;
  unlisted = λ device ip s l. refl;
}

first_run : (seed seed_client []).0 ≡ ok tt
unfolding seed ◌>>=◌ itoa print_digits digit
first_run = refl

seed-twice_example :
    Answered (RefusesAddress seed_client) (seed seed_client (seed seed_client []).1) tt
    × (seed_client.list
          (Listing.devices ("test-bond-01" ∷ []))
          (seed seed_client (seed seed_client []).1).1
        ≡ seed_client.list (Listing.devices ("test-bond-01" ∷ [])) (seed seed_client []).1)
seed-twice_example =
    seed-twice seed_client seed_client-KeepsObjects [] (Listing.devices ("test-bond-01" ∷ []))
      first_run

abbrev copies : ℕ → List ℕ
copies zero = []
copies (suc n) = 171 ∷ copies n

copies-length : (n : ℕ) → length (copies n) ≡ n
copies-length zero = refl
copies-length (suc n) = ap suc (copies-length n)

-- Its state is the number of the objects. Nothing is listed, and the random bytes are all 171.
abbrev servers : Servers
servers = record {
  State = ℕ;
  users_by_username = λ name s. good [];
  users_create = λ username name kind s. (good s, s + 1);
  groups_by_name = λ name s. good ("4f1c" ∷ []);
  groups_by_members = λ members s. good [];
  groups_create = λ name s. (good "4f1c", s + 1);
  groups_add_user = λ group user s. (good tt, s);
  netbox_users_list = λ names s. good (page_of []);
  netbox_users_create = λ name password s. (good s, s + 1);
  permissions_list = λ names s. good (page_of []);
  permissions_create = λ name types actions users s. (good s, s + 1);
  tokens_list = λ names s. good (page_of []);
  tokens_create = λ user key s. (good s, s + 1);
  random_bytes = λ n s. (good (copies n), s);
}

servers-Documented : Documented servers
servers-Documented = record {
  filled = λ n s. copies-length n;
  shown = λ names s h e. absurd (omega (arith, h));
}

seed-AreTokens_example : EndsIn Unit AreTokens (SeedAuthentik.seed servers 1).0
seed-AreTokens_example = seed-AreTokens servers servers-Documented 1
