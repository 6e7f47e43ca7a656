-- ===== src/Effect/Inverts.antt =====
-- What the success of two actions in a row says of each of them.
use machinecfg.Prelude.{◌≡◌, ◌≢◌, refl}
use machinecfg.Effect.{Exec, Error, Outcome, ok, err, panic, continue, ◌>>=◌}

pub ok-injective {ℓ} : {A : Type ℓ} {a b : A} → ok a ≡ ok b → a ≡ b
ok-injective h = cc h

err≢ok {ℓ} : {A : Type ℓ} {a : A} {e : Error} → err e ≢ ok a
err≢ok h = cc h

panic≢ok {ℓ} : {A : Type ℓ} {a : A} → panic ≢ ok a
panic≢ok h = cc h

module _ {S A B : Type 0} where
  -- The first returned, and the second ended the run from there.
  abbrev pub Runs : Exec S A → (A → Exec S B) → S → B → Type 0
  Runs m f s b =
      (a : A) × ((m s).0 ≡ ok a) × ((f a (m s).1).0 ≡ ok b) × (((m >>= f) s).1 ≡ (f a (m s).1).1)

  pub bind-Runs :
      (m : Exec S A) (f : A → Exec S B) (s : S) {b : B} → ((m >>= f) s).0 ≡ ok b → Runs m f s b
  unfolding ◌>>=◌
  bind-Runs m f s {b} h = go (m s).0 (m s).1 h
    where
      go :
          (o : Outcome A) (u : S)
          → (continue o f u).0 ≡ ok b
          → (a : A) × (o ≡ ok a) × ((f a u).0 ≡ ok b) × ((continue o f u).1 ≡ (f a u).1)
      go (ok a) u h = (a, refl, h, refl)
      go (err e) u h = absurd (err≢ok h)
      go panic u h = absurd (panic≢ok h)
