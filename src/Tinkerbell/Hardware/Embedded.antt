-- ===== src/Tinkerbell/Hardware/Embedded.antt =====
-- hardware.go: the ignition that `CreateHardwares` embeds into an object, without a variant or with
-- one that it does not know.
use machinecfg.Prelude.{
  ℕ, String, ◌≡◌, ◌≢◌, refl, ap, Option, none, some, inl, inr, ◌==◌, string_eq, eq_iff, Bool-cases,
}
use machinecfg.Effect.{Outcome, ok, ◌>>=◌}
use machinecfg.Netbox.{Netbox}
use machinecfg.Kube.{Hardware}
use machinecfg.Butane.Config.{Config}
use machinecfg.Tinkerbell.Hardware.{embed_ignition}

module _ (N : Netbox) (flatcar fcos : Config → Outcome String) where
  pub embed_ignition-none :
      (variant : Option String) (id : ℕ) (hw : Hardware) (s : N.State)
      → variant ≢ some "flatcar"
      → variant ≢ some "fcos"
      → embed_ignition N flatcar fcos variant id hw s ≡ (ok hw, s)
  unfolding embed_ignition ◌>>=◌
  embed_ignition-none none id hw s not_flatcar not_fcos = refl
  embed_ignition-none (some variant) id hw s not_flatcar not_fcos =
      elim (Bool-cases (variant == "flatcar")) [
        | inl same ↦ absurd (not_flatcar (ap some ((eq_iff _ _).0 same)))
        | inr differs ↦ elim (Bool-cases (variant == "fcos")) [
          | inl same ↦ absurd (not_fcos (ap some ((eq_iff _ _).0 same)))
          | inr unknown ↦ rw (differs, unknown) refl
        ]
      ]
