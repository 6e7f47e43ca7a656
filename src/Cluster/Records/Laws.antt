-- ===== src/Cluster/Records/Laws.antt =====
-- sync_status.go: the records of a cluster, in a run and in a run after it.
use machinecfg.Prelude.{
  ℕ, ◌≤◌, ◌<◌, ◌+◌, ◌%◌, String, ◌≡◌, refl, ◌≢◌, ◌⊎◌, ◌∙◌, sym, Bool, false, List, [], ◌∷◌, All,
  Exists, All-map, Exists-All, arith, inl, inr, nat_beq, nat_eq, string_eq,
}
use machinecfg.Effect.{good, bad, ok, err, Error, Reply-cases, ◌>>=◌}
use machinecfg.Text.{int32_mod}
use machinecfg.Netbox.{Netbox, Page, Param, FhrpGroup, FhrpGroupRequest}
use machinecfg.Cluster.Records.{get_or_create_fhrp_group, get_next_fhrp_group_id, highest_group}
use machinecfg.Netbox.FindOrCreate.Laws.{ShowsCreated, find_or_create-twice}

module _ (N : Netbox) where
  abbrev pub fhrp_group_request : String → ℕ → FhrpGroupRequest
  fhrp_group_request name group_id = record { protocol = "other"; group_id = group_id; name = name }

  -- If a group that is created is listed under its name, a second run for the same cluster, with
  -- whatever number, returns the group of the first run, creates none and changes nothing.
  pub get_or_create_fhrp_group-twice :
      (name : String) (group_id other_id : ℕ) (s : N.State) (group : FhrpGroup) (created : Bool)
      → ShowsCreated
          (N.fhrp_groups_list (Param.name (name ∷ []) ∷ []))
          (N.fhrp_groups_create (fhrp_group_request name group_id))
      → (get_or_create_fhrp_group N name group_id s).0 ≡ ok (group, created)
      → get_or_create_fhrp_group N name other_id (get_or_create_fhrp_group N name group_id s).1
        ≡ (ok (group, false), (get_or_create_fhrp_group N name group_id s).1)
  unfolding get_or_create_fhrp_group
  get_or_create_fhrp_group-twice name group_id other_id s group created =
      find_or_create-twice _ _ _ _ _ _ _ s group created

  -- The page of the request for the highest number, against the groups that NetBox holds: it counts
  -- them, and shows first one of the highest number.
  abbrev pub ShowsHighest : (N.State → List FhrpGroup) → N.State → Type 0
  ShowsHighest groups s =
      (page : Page FhrpGroup)
      → N.fhrp_groups_list highest_group s ≡ good page
      → ((page.count ≡ 0) × (groups s ≡ []))
        ⊎ ((0 < page.count)
            × ((g : FhrpGroup) × (rest : List FhrpGroup) × (page.results ≡ g ∷ rest)
                × Exists (λ h. h.group_id ≡ g.group_id) (groups s)
                × All (λ h. h.group_id ≤ g.group_id) (groups s)))

  unanswered :
      (s : N.State) (e : Error)
      → N.fhrp_groups_list highest_group s ≡ bad e
      → (e' : Error) × ((get_next_fhrp_group_id N s).0 ≡ err e')
  unfolding get_next_fhrp_group_id ◌>>=◌
  unanswered s e h = rw h (_, refl)

  counted_up :
      (s : N.State) (page : Page FhrpGroup) (g : FhrpGroup) (rest : List FhrpGroup)
      → N.fhrp_groups_list highest_group s ≡ good page
      → nat_beq page.count 0 ≡ false
      → page.results ≡ g ∷ rest
      → (get_next_fhrp_group_id N s).0 ≡ ok ((g.group_id + 1) % int32_mod)
  unfolding get_next_fhrp_group_id ◌>>=◌
  counted_up s page g rest h counted results = rw (h, counted, results)

  -- If the first page shows a group of the highest number, the number that is proposed for a new
  -- group is the number of no group, as long as the highest number can be counted up in 32 bits.
  pub get_next_fhrp_group_id-fresh :
      (groups : N.State → List FhrpGroup) (s : N.State) (n : ℕ)
      → ShowsHighest groups s
      → All (λ g. g.group_id + 1 < int32_mod) (groups s)
      → (get_next_fhrp_group_id N s).0 ≡ ok n
      → All (λ g. g.group_id < n) (groups s)
  get_next_fhrp_group_id-fresh groups s n highest small h =
      elim (Reply-cases (N.fhrp_groups_list highest_group s)) [
        | inr (e, failed) ↦ absurd (ok≢err_number (sym h ∙ (unanswered s e failed).1))
        | inl (page, listed) ↦ elim (highest page listed) [
          | inl (_, nothing) ↦ rw nothing tt
          | inr (counted, (g, rest, results, held, below)) ↦
              let (x, is_g, room) = Exists-All (groups s) held small in
              let next =
                ok-number (sym h ∙ counted_up s page g rest listed (ground arith) results) in
              All-map (λ x p. below_next x.group_id g.group_id next (omega (arith, is_g, room)) p)
                (groups s) below
        ]
      ]
    where
      ok≢err_number : {e : Error} → ok n ≢ err e
      ok≢err_number p = cc p

      ok-number : {m : ℕ} → ok n ≡ ok m → n ≡ m
      ok-number p = cc p

      below_next : (x g : ℕ) → n ≡ (g + 1) % int32_mod → g + 1 < int32_mod → x ≤ g → x < n
      below_next x g e room p = omega arith
