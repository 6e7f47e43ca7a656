-- ===== src/KubernetesUpdater/Sync/Rounds.antt =====
-- A round of the reconciler that polls NetBox: its loops, and how it ends.
use machinecfg.Butane.Config.{Config as ButaneConfig}
use native.Mathlib.Nat.{zero-add}
use machinecfg.Prelude.{
  Dict, eq_iff, ℕ, ◌+◌, ◌<◌, String, ◌≡◌, refl, ap, ◌⊎◌, inl, inr, true, some, List, [], ◌∷◌, arith,
  Bool-cases, nat_eq, string_eq, ◌==◌, ltb, if◌then◌else◌,
}
use machinecfg.Effect.{
  Exec, Outcome, Reply, good, bad, ok, err, panic, Error, ErrorKind, pure, raise, continue, ◌>>=◌,
}
use machinecfg.Effect.Meets.{
  Meets, EndsIn, Meets-pure, Meets-raise, Meets-attempt, Meets-bind, Meets-wrap, Meets-on_right,
  Anything, ask-Meets, tell-Meets,
}
use machinecfg.Netbox.{Netbox}
use machinecfg.Kube.{Kube, Hardware}
use machinecfg.KubernetesUpdater.Config.Laws.{get_sync_interval-positive}
use machinecfg.Tinkerbell.Hardware.{create_hardwares, create_hardwares_to_prune}
use machinecfg.Tinkerbell.Reconcile.Answers.{reconcile_existing_hardware-Meets}
use machinecfg.KubernetesUpdater.Config.{Config, get_sync_interval, get_backend}
use machinecfg.KubernetesUpdater.Sync.{
  World, apply_hardware, prune_hardware, count_failures, failures, reconcile, reconcile_with,
  Requeue, create_or_raise, gone_or_raise, apply_reply, prune_reply, pruned_event, sync_tinkerbell,
}

-- Every object is handled, in the order of the list, each in the state that the one before it
-- left, whether that one failed or not. The number is that of the objects that failed.
pub data Tried {S : Type 0} (act : Hardware → Exec S (Unit {0}))
    : S → List Hardware → ℕ → S → Type 0 where
  end : {s : S} → Tried act s [] 0 s
  done :
      {s s' : S} {hw : Hardware} {hws : List Hardware} {n : ℕ}
      → (act hw s).0 ≡ ok tt
      → Tried act (act hw s).1 hws n s'
      → Tried act s (hw ∷ hws) n s'
  failed :
      {s s' : S} {hw : Hardware} {hws : List Hardware} {n : ℕ}
      → (e : Error) → (act hw s).0 ≡ err e
      → Tried act (act hw s).1 hws n s'
      → Tried act s (hw ∷ hws) (1 + n) s'

ended :
    (o : Outcome (Unit {0})) → EndsIn Unit Anything o → (o ≡ ok tt) ⊎ ((e : Error) × (o ≡ err e))
ended (ok tt) h = inl refl
ended (err e) h = inr (e, refl)
ended panic h = absurd h

module _ (N : Netbox) (K : Kube)
    (flatcar_translation fcos_translation : ButaneConfig → Outcome String) where
  count_failures-Tried :
      (act : Hardware → Exec (World N K flatcar_translation fcos_translation) (Unit {0}))
      → ((hw : Hardware) → Meets Unit Anything (act hw))
      → (hws : List Hardware) (w : World N K flatcar_translation fcos_translation)
      → (n : ℕ) × (after : World N K flatcar_translation fcos_translation) × (count_failures N K
            flatcar_translation fcos_translation act hws w
          ≡ (ok n, after))
        × Tried act w hws n after
  unfolding count_failures pure ◌>>=◌
  count_failures-Tried act h [] w = (0, w, refl, end)
  count_failures-Tried act h (hw ∷ hws) w =
      let (n, after, counted, tried) = count_failures-Tried act h hws (act hw w).1 in
      elim (ended (act hw w).0 ((h hw).at w)) [
        | inl fine ↦
            (n, after, rw (fine, counted) (ap (λ m. (ok m, after)) (zero-add n)), done fine tried)
        | inr (e, fails) ↦ (1 + n, after, rw (fails, counted) refl, failed e fails tried)
      ]

  create_or_raise-Meets :
      (hw : Hardware) (kind : ErrorKind) (e : Error)
      → Meets Unit Anything (create_or_raise N K flatcar_translation fcos_translation hw kind e)
  create_or_raise-Meets hw ErrorKind.not_found e =
      Meets-bind _ _ (Meets-wrap _ _ (Meets-on_right _ (tell-Meets _))) λ created _. Meets-pure _ tt
  create_or_raise-Meets hw ErrorKind.already_exists e = Meets-raise _
  create_or_raise-Meets hw ErrorKind.other e = Meets-raise _

  apply_reply-Meets :
      (hw : Hardware) (r : Reply Hardware)
      → Meets Unit Anything (apply_reply N K flatcar_translation fcos_translation hw r)
  apply_reply-Meets hw (bad e) = create_or_raise-Meets hw e.kind e
  apply_reply-Meets hw (good existing) = Meets-wrap _ _ (reconcile_existing_hardware-Meets N K hw)

  apply_hardware-Meets :
      (hw : Hardware)
      → Meets Unit Anything (apply_hardware N K flatcar_translation fcos_translation hw)
  unfolding apply_hardware
  apply_hardware-Meets hw =
      Meets-bind _ _ (Meets-attempt Unit _ (Meets-on_right _ (ask-Meets _)))
        λ r _. apply_reply-Meets hw r

  gone_or_raise-Meets :
      (hw : Hardware) (kind : ErrorKind) (e : Error)
      → Meets Unit Anything (gone_or_raise N K flatcar_translation fcos_translation hw kind e)
  gone_or_raise-Meets hw ErrorKind.not_found e = Meets-pure _ tt
  gone_or_raise-Meets hw ErrorKind.already_exists e = Meets-raise _
  gone_or_raise-Meets hw ErrorKind.other e = Meets-raise _

  pruned_event-Meets :
      (hw : Hardware) (cm : Reply (Dict String))
      → Meets Unit Anything (pruned_event N K flatcar_translation fcos_translation hw cm)
  pruned_event-Meets hw (bad e) = Meets-pure _ tt
  pruned_event-Meets hw (good cm) = Meets-on_right _ (tell-Meets _)

  prune_reply-Meets :
      (namespace : String) (hw : Hardware) (r : Reply Hardware)
      → Meets Unit Anything (prune_reply N K flatcar_translation fcos_translation namespace hw r)
  prune_reply-Meets namespace hw (bad e) = gone_or_raise-Meets hw e.kind e
  prune_reply-Meets namespace hw (good existing) =
      Meets-bind _ _ (Meets-wrap _ _ (Meets-on_right _ (tell-Meets _))) λ deleted _.
        Meets-bind _ _ (Meets-attempt Unit _ (Meets-on_right _ (ask-Meets _)))
          λ cm _. pruned_event-Meets hw cm

  prune_hardware-Meets :
      (namespace : String) (hw : Hardware)
      → Meets Unit Anything (prune_hardware N K flatcar_translation fcos_translation namespace hw)
  unfolding prune_hardware
  prune_hardware-Meets namespace hw =
      Meets-bind _ _ (Meets-attempt Unit _ (Meets-on_right _ (ask-Meets _)))
        λ r _. prune_reply-Meets namespace hw r

  -- The loop over the objects to apply always returns. It applies every object in order, each in
  -- the state that the one before it left, failed or not, and returns the number of those that
  -- failed.
  pub count_failures-apply :
      (hws : List Hardware) (w : World N K flatcar_translation fcos_translation)
      → (n : ℕ) × (after : World N K flatcar_translation fcos_translation) × (count_failures N K
            flatcar_translation fcos_translation
            (apply_hardware N K flatcar_translation fcos_translation)
            hws
            w
          ≡ (ok n, after))
        × Tried (apply_hardware N K flatcar_translation fcos_translation) w hws n after
  count_failures-apply hws w = count_failures-Tried _ apply_hardware-Meets hws w

  -- How a round ends after so many failures: with the interval, or with an error.
  abbrev pub Ends : ℕ → ℕ → Outcome Requeue → Type 0
  Ends failures interval o =
      ((failures ≡ 0) × (o ≡ ok (record { after = interval })))
      ⊎ ((0 < failures) × ((e : Error) × (o ≡ err e)))

  fails-Ends :
      (n interval : ℕ) (e : Error) (w : World N K flatcar_translation fcos_translation)
      → ((continue {B = Requeue}
            ((if ltb 0 n then raise e else pure tt) w).0
            (λ synced. pure (record { after = interval }))
            ((if ltb 0 n then raise e else pure tt) w).1).1
          ≡ w)
        × Ends n interval
            (continue {B = Requeue}
              ((if ltb 0 n then raise e else pure tt) w).0
              (λ synced. pure (record { after = interval }))
              ((if ltb 0 n then raise e else pure tt) w).1).0
  unfolding raise pure
  fails-Ends n interval e w = elim (Bool-cases (ltb 0 n)) [
    | inl some_failed ↦ rw some_failed (refl, inr (ground arith, (e, refl)))
    | inr none_failed ↦ rw none_failed (refl, inl (ground arith, refl))
  ]

  reconcile-connected :
      {Client : Type 0} (namespace : String) (config : Config Client) (client : Client)
      (w : World N K flatcar_translation fcos_translation)
      → config.netbox_client ≡ some client
      → reconcile N K flatcar_translation fcos_translation namespace config w
        ≡ reconcile_with N K flatcar_translation fcos_translation namespace config (some client) w
  unfolding reconcile
  reconcile-connected namespace config client w h =
      ap (λ c. reconcile_with N K flatcar_translation fcos_translation namespace config c w) h

  -- With a NetBox client and the backend Tinkerbell, if the lists of the objects to apply and to
  -- delete can be built, a round tries every object of the first list and then every object of the
  -- second, each once and in order, whatever fails before it. If all succeed, it asks to be called
  -- again after the configured interval, which is not zero; if any fails, it ends in an error.
  pub reconcile-Requeues :
      {Client : Type 0} (namespace : String) (config : Config Client) (client : Client)
      (w : World N K flatcar_translation fcos_translation) (desired to_prune : List Hardware)
      → config.netbox_client ≡ some client
      → get_backend config ≡ "tinkerbell"
      → create_hardwares N flatcar_translation fcos_translation config.device_filters
          config.ignition_variant w.0
        ≡ (ok desired, w.0)
      → create_hardwares_to_prune N config.device_filters w.0 ≡ (ok to_prune, w.0)
      → (applied_failures : ℕ) × (pruned_failures : ℕ) × (applied : World N K flatcar_translation
          fcos_translation)
        × Tried
            (apply_hardware N K flatcar_translation fcos_translation)
            w
            desired
            applied_failures
            applied
        × Tried
            (prune_hardware N K flatcar_translation fcos_translation namespace)
            applied
            to_prune
            pruned_failures
            (reconcile N K flatcar_translation fcos_translation namespace config w).1
        × Ends
            (applied_failures + pruned_failures)
            (get_sync_interval config)
            (reconcile N K flatcar_translation fcos_translation namespace config w).0
        × (0 < get_sync_interval config)
  unfolding sync_tinkerbell ◌>>=◌
  reconcile-Requeues namespace config client w desired to_prune connected backend made gone =
      let (n, applied, counted, tried) = count_failures-apply desired w in
      let (m, pruned, counted', tried') =
        count_failures-Tried _ (prune_hardware-Meets namespace) to_prune applied in
      let (same, ends) = fails-Ends (n + m) (get_sync_interval config) _ pruned in
      let entered = reconcile-connected namespace config client w connected in
      let known : (get_backend config == "tinkerbell") ≡ true =
        (eq_iff (get_backend config) "tinkerbell").1 backend in
      (
        n,
        m,
        applied,
        tried,
        rw (entered, known, made, gone, counted, counted', same) tried',
        rw (entered, known, made, gone, counted, counted') ends,
        get_sync_interval-positive config,
      )
