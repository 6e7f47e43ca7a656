-- ===== src/Tooling/SeedNetbox/Laws.antt =====
-- seed-netbox: a run, and a run after it.
pub mod Twice
use machinecfg.Prelude.{
  ℕ, suc, String, ◌≡◌, ◌≢◌, inl, inr, refl, ◌∙◌, ap, sym, subst, Bool, true, false, Option, none,
  some, List, [], ◌∷◌, ltb, ◌==◌, string_eq, ◌<>◌, if◌then◌else◌,
}
use mathlib.Core.Bool.{false≢true}
use machinecfg.Effect.{
  Error, Reply, good, bad, ok, err, panic, Outcome, continue, pure, Exec, ◌>>=◌, ◌>>◌,
}
use machinecfg.Effect.Moves.{
  Moves, Preorder, Moves-pure, Moves-bind, Moves-if, Moves-tell, Moves-wrap, reads,
}
use machinecfg.Effect.Repeats.{Repeats, Answered, Repeats-tell_done}
use machinecfg.Text.{itoa}
use machinecfg.Netbox.{Page}
use machinecfg.Netbox.FindOrCreate.{find_or_create}
use machinecfg.Netbox.FindOrCreate.Laws.{
  CountsNone, find_or_create-leaves, Shows, ShowsCreated, find_or_create-found,
  find_or_create-Shows,
}
use machinecfg.Cluster.Records.{to_int64}
use machinecfg.Tooling.SeedNetbox.Client.{SeedClient, Listing, Request}
use machinecfg.Tooling.SeedNetbox.{
  NetworkSpec, DeviceSpec, devices_to_seed, prefixes_to_seed, ensure, ensure_tenant, ensure_site,
  ensure_device_role, ensure_manufacturer, ensure_device_type, ensure_prefix, ensure_interface,
  ensure_ip_address, ensure_device, ensure_device_primary_ip, ensure_prefixes, seed_network,
  seed_devices, seed,
}

-- The requests that list what a request creates.
pub data Lists : Listing → Request → Type 0 where
  tenants : (name slug : String) → Lists (Listing.tenants (name ∷ [])) (Request.tenant name slug)
  sites :
      (name slug : String) (tenant : ℕ)
      → Lists (Listing.sites (name ∷ [])) (Request.site name slug tenant)
  device_roles :
      (name slug color : String)
      → Lists (Listing.device_roles (name ∷ [])) (Request.device_role name slug color)
  manufacturers :
      (name slug : String)
      → Lists (Listing.manufacturers (name ∷ [])) (Request.manufacturer name slug)
  device_types :
      (manufacturer : ℕ) (model slug : String)
      → Lists (Listing.device_types (model ∷ [])) (Request.device_type manufacturer model slug)
  prefixes : (text : String) → Lists (Listing.prefixes (text ∷ [])) (Request.prefix text)
  interfaces :
      (device : ℕ) (name kind : String)
      → Lists (Listing.interfaces (device ∷ []) (name ∷ [])) (Request.interface device name kind)
  ip_addresses :
      (address kind : String) (owner : ℕ)
      → Lists (Listing.ip_addresses (address ∷ [])) (Request.ip_address address kind owner)
  devices :
      (name : String) (device_type role site : ℕ) (status : String) (tenant : ℕ)
      → Lists
          (Listing.devices (name ∷ []))
          (Request.device name device_type role site status tenant)

good-injective : {A : Type 0} {a b : A} → good a ≡ good b → a ≡ b
good-injective h = cc h

-- No list changes.
abbrev pub same_lists : (N : SeedClient) → Preorder N.State
same_lists N = record {
  rel = λ s t. (l : Listing) → N.list l t ≡ N.list l s;
  stay = λ s l. refl;
  go_on = λ p q l. q l ∙ p l;
}

-- No list by which the code finds an object loses the object that it shows.
abbrev pub shows_on : (N : SeedClient) → Preorder N.State
shows_on N = record {
  rel = λ s t.
      (l : Listing) (r : Request)
      → Lists l r
      → (id : ℕ) → Shows (N.list l) s id
      → Shows (N.list l) t id;
  stay = λ s l r listed id h. h;
  go_on = λ p q l r listed id h. q l r listed id (p l r listed id h);
}

-- What NetBox documents of its filters, which are exact: a new object is listed under its own name,
-- and not in a list that shows objects of another kind or name; and setting the primary address of
-- a device, which no list here filters by, changes no list.
pub record KeepsObjects (N : SeedClient) : Type 0 where
  pub created : (l : Listing) (r : Request) → Lists l r → ShowsCreated (N.list l) (N.create r)
  pub apart :
      (l l' : Listing) (r r' : Request)
      → Lists l r
      → Lists l' r'
      → l' ≢ l
      → (s : N.State) (id : ℕ) → Shows (N.list l') s id
      → N.list l' (N.create r s).1 ≡ N.list l' s
  pub unlisted :
      (device ip : ℕ) (s : N.State) → (same_lists N).rel s (N.set_primary_ip4 device ip s).1

-- The error is that of a request to set the primary address of a device, which NetBox refuses, and
-- the state is that after the request.
abbrev pub RefusesAddress : (N : SeedClient) → Error → N.State → Type 0
RefusesAddress N error after =
    (device : ℕ) × (ip : ℕ) × (s : N.State) × (e : Error) × ((N.set_primary_ip4 device ip s).0
      ≡ bad e)
    × ((N.set_primary_ip4 device ip s).1 ≡ after)
    × (error.text ≡ "set primary IP " <> itoa ip <> " on device " <> itoa device <> ": " <> e.text)

module _ (N : SeedClient) (laws : KeepsObjects N) where
  same-later : (s t : N.State) → (same_lists N).rel s t → (shows_on N).rel s t
  same-later s t same l r exact id (page, rest, listed, counted, results) =
      (page, rest, same l ∙ listed, counted, results)

  abbrev Again : {A : Type 0} → Exec N.State A → Type 0
  Again m = Repeats (RefusesAddress N) (shows_on N) (same_lists N) m

  abbrev Adds : {A : Type 0} → Exec N.State A → Type 0
  Adds m = Moves (shows_on N) m

  module _ (what made : String) (l : Listing) (r : Request) (listed : Lists l r) where
    abbrev list_error : String → String
    list_error t = "list " <> what <> ": " <> t

    abbrev create_error : String → String
    create_error t = "create " <> made <> ": " <> t

    abbrev find : Exec N.State (ℕ × Bool)
    find = find_or_create list_error create_error (N.list l) (N.create r)

    abbrev number : ℕ × Bool → Exec N.State ℕ
    number found = pure found.0

    found_again :
        (s : N.State) (o : Outcome (ℕ × Bool))
        → (find s).0 ≡ o
        → (id : ℕ) → (continue o number (find s).1).0 ≡ ok id
        → (u : N.State) → (shows_on N).rel (continue o number (find s).1).1 u
        → Answered (RefusesAddress N) (ensure N what made l r u) id
          × (same_lists N).rel u (ensure N what made l r u).1
    unfolding ◌>>=◌
    found_again s (ok (x, created)) e id h u later =
        let shown =
          find_or_create-Shows list_error create_error (N.list l) (N.create r) s x created
            (laws.created l r listed) e in
        let found : find u ≡ (ok (x, false), u) =
          find_or_create-found list_error create_error (N.list l) (N.create r) u x
            (later l r listed x shown) in
        subst
          (λ (p : Outcome (ℕ × Bool) × N.State).
            Answered (RefusesAddress N) (continue p.0 number p.1) id
            × (same_lists N).rel u (continue p.0 number p.1).1)
          (sym found) (inl h, λ k. refl)
    found_again s (err x) e id h u later = absurd (cc h)
    found_again s panic e id h u later = absurd (cc h)

    ensure-Again : Again (ensure N what made l r)
    unfolding ◌>>=◌
    ensure-Again = record { at = λ s id h u later. found_again s (find s).0 refl id h u later }

    counted≢none :
        {page page' : Page ℕ} {o : Reply (Page ℕ)}
        → o ≡ good page
        → o ≡ good page'
        → ltb 0 page.count ≡ true
        → ltb 0 page'.count ≡ false
        → ⊥
    counted≢none h h' some_counted none_counted =
        let same = good-injective (sym h ∙ h') in
        false≢true (sym none_counted ∙ ap (λ (p : Page ℕ). ltb 0 p.count) (sym same) ∙ some_counted)

    created-shows_on :
        (s : N.State)
        → CountsNone list_error create_error (N.list l) (N.create r) s
        → (shows_on N).rel s (N.create r s).1
    created-shows_on s (page, none_listed, none_counted) l' r' exact id
          (page', rest, shown, counted, results) =
        let other : l' ≢ l = λ e.
          counted≢none (ap (λ k. N.list k s) (sym e) ∙ shown) none_listed counted none_counted in
        (
          page',
          rest,
          laws.apart l l' r r' listed exact other s id (page', rest, shown, counted, results)
              ∙ shown,
          counted,
          results,
        )

    numbered : (o : Outcome (ℕ × Bool)) (t : N.State) → (continue o number t).1 ≡ t
    unfolding pure
    numbered (ok found) t = refl
    numbered (err e) t = refl
    numbered panic t = refl

    ensure-Adds : Adds (ensure N what made l r)
    unfolding ◌>>=◌
    ensure-Adds = record {
      at = λ s.
          subst ((shows_on N).rel s) (sym (numbered (find s).0 (find s).1))
            (elim (find_or_create-leaves list_error create_error (N.list l) (N.create r) s) [
              | inl same ↦ subst ((shows_on N).rel s) (sym same) ((shows_on N).stay s)
              | inr (none_listed, made_one) ↦
                  subst ((shows_on N).rel s) (sym made_one) (created-shows_on s none_listed)
            ]);
    }

  ensure_device_primary_ip-Adds :
      (device_id ip_id : ℕ) → Adds (ensure_device_primary_ip N device_id ip_id)
  unfolding ensure_device_primary_ip
  ensure_device_primary_ip-Adds device_id ip_id =
      Moves-bind _ _
        (Moves-wrap _ _ (Moves-tell _ λ s. same-later _ _ (laws.unlisted device_id ip_id s)))
        λ id. Moves-pure _

  ensure_device_primary_ip-Again :
      (device_id ip_id : ℕ) → Again (ensure_device_primary_ip N device_id ip_id)
  unfolding ensure_device_primary_ip
  ensure_device_primary_ip-Again device_id ip_id =
      Repeats-tell_done _ _ (λ u e refused. (device_id, ip_id, u, e, refused, refl, refl))
        (laws.unlisted device_id ip_id)
