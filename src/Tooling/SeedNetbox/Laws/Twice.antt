-- ===== src/Tooling/SeedNetbox/Laws/Twice.antt =====
-- The composition of the functions of seed-netbox.
use machinecfg.Prelude.{
  ℕ, String, ◌≡◌, Bool, Option, none, some, List, [], ◌∷◌, string_eq, if◌then◌else◌,
}
use machinecfg.Effect.{ok, Exec, pure, ◌>>=◌}
use machinecfg.Effect.Moves.{Moves-pure, Moves-bind, Moves-if}
use machinecfg.Effect.Repeats.{Answered, Repeats-pure, Repeats-if, Repeats-bind}
use machinecfg.Cluster.Records.{to_int64}
use machinecfg.Tooling.SeedNetbox.Client.{SeedClient, Listing, Request}
use machinecfg.Tooling.SeedNetbox.{
  NetworkSpec, DeviceSpec, devices_to_seed, prefixes_to_seed, ensure, ensure_tenant, ensure_site,
  ensure_device_role, ensure_manufacturer, ensure_device_type, ensure_prefix, ensure_interface,
  ensure_ip_address, ensure_device, ensure_device_primary_ip, ensure_prefixes, seed_network,
  seed_devices, seed,
}
use machinecfg.Tooling.SeedNetbox.Laws.{
  Lists, tenants, sites, device_roles, manufacturers, device_types, prefixes, interfaces,
  ip_addresses, devices, KeepsObjects, RefusesAddress, shows_on, same-later, Again, Adds,
  ensure-Adds, ensure-Again, ensure_device_primary_ip-Adds, ensure_device_primary_ip-Again,
}

module _ (N : SeedClient) (laws : KeepsObjects N) where
  -- It takes no object away, and a later run repeats it.
  record Once {A : Type 0} (m : Exec N.State A) : Type 0 where
    adds : Adds N laws m
    again : Again N laws m

  Once-pure : {A : Type 0} (a : A) → Once (pure a)
  Once-pure a = record { adds = Moves-pure a; again = Repeats-pure a }

  Once-bind :
      {A B : Type 0} (m : Exec N.State A) (f : A → Exec N.State B)
      → Once m
      → ((a : A) → Once (f a))
      → Once (m >>= f)
  Once-bind m f p q = record {
    adds = Moves-bind m f p.adds (λ a. (q a).adds);
    again = Repeats-bind (same-later N laws) m f p.again (λ a. (q a).adds) (λ a. (q a).again);
  }

  Once-if :
      {A : Type 0} (b : Bool) (m n : Exec N.State A) → Once m → Once n → Once (if b then m else n)
  Once-if b m n p q = record {
    adds = Moves-if b m n p.adds q.adds;
    again = Repeats-if b m n p.again q.again;
  }

  ensure-Once :
      (what made : String) {l : Listing} {r : Request} → Lists l r → Once (ensure N what made l r)
  ensure-Once what made {l} {r} listed = record {
    adds = ensure-Adds N laws what made l r listed;
    again = ensure-Again N laws what made l r listed;
  }

  ensure_device_primary_ip-Once :
      (device_id ip_id : ℕ) → Once (ensure_device_primary_ip N device_id ip_id)
  ensure_device_primary_ip-Once device_id ip_id = record {
    adds = ensure_device_primary_ip-Adds N laws device_id ip_id;
    again = ensure_device_primary_ip-Again N laws device_id ip_id;
  }

  ensure_prefixes-Once : (texts : List String) → Once (ensure_prefixes N texts)
  unfolding ensure_prefixes ensure_prefix
  ensure_prefixes-Once [] = Once-pure _
  ensure_prefixes-Once (text ∷ texts) =
      Once-bind _ _ (Once-bind _ _ (ensure-Once _ _ (prefixes text)) λ id. Once-pure _)
        λ done. ensure_prefixes-Once texts

  seed_network-Once :
      (device_id : ℕ) (network : Option NetworkSpec) → Once (seed_network N device_id network)
  unfolding ensure_interface ensure_ip_address
  seed_network-Once device_id none = Once-pure _
  seed_network-Once device_id (some network) =
      Once-bind _ _ (ensure-Once _ _ (interfaces device_id network.iface_name network.iface_type))
        λ iface_id. Once-if _ _ _ (Once-pure _) (
          Once-bind _ _
            (ensure-Once _ _ (ip_addresses network.ip_address "dcim.interface" (to_int64 iface_id)))
            λ ip_id. ensure_device_primary_ip-Once device_id ip_id)

  seed_devices-Once :
      (specs : List DeviceSpec) (site_id role_id device_type_id tenant_id : ℕ)
      → Once (seed_devices N specs site_id role_id device_type_id tenant_id)
  unfolding seed_devices ensure_device
  seed_devices-Once [] site_id role_id device_type_id tenant_id = Once-pure _
  seed_devices-Once (spec ∷ specs) site_id role_id device_type_id tenant_id =
      Once-bind _ _
        (ensure-Once _ _ (devices spec.name device_type_id role_id site_id spec.status tenant_id))
        λ device_id.
          Once-bind _ _ (seed_network-Once device_id spec.network)
            λ done. seed_devices-Once specs site_id role_id device_type_id tenant_id

  seed-Once : Once (seed N)
  unfolding seed ensure_tenant ensure_site ensure_device_role ensure_manufacturer ensure_device_type
  seed-Once = Once-bind _ _ (ensure-Once _ _ (tenants _ _)) λ tenant_id.
      Once-bind _ _ (ensure-Once _ _ (sites _ _ tenant_id)) λ site_id.
        Once-bind _ _ (ensure-Once _ _ (device_roles _ _ _)) λ role_id.
          Once-bind _ _ (ensure-Once _ _ (manufacturers _ _)) λ manufacturer_id.
            Once-bind _ _ (ensure-Once _ _ (device_types manufacturer_id _ _)) λ device_type_id.
              Once-bind _ _ (ensure_prefixes-Once prefixes_to_seed)
                λ done. seed_devices-Once devices_to_seed site_id role_id device_type_id tenant_id

  -- If NetBox keeps its objects as documented, a run of seed-netbox that has succeeded can be
  -- repeated: every list that the tool reads is the same after a second run, so that nothing is
  -- created twice, and the second run succeeds, or ends with the error of a request to set the
  -- primary address of a device that NetBox refuses.
  pub seed-twice :
      (s : N.State) (l : Listing)
      → (seed N s).0 ≡ ok tt
      → Answered (RefusesAddress N) (seed N (seed N s).1) tt
        × (N.list l (seed N (seed N s).1).1 ≡ N.list l (seed N s).1)
  seed-twice s l h =
      let (again, same) = seed-Once.again.at s tt h (seed N s).1 ((shows_on N).stay _) in
      (again, same l)
