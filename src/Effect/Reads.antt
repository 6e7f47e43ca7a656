-- ===== src/Effect/Reads.antt =====
-- An action that writes nothing and never panics: its answer is a value or an error, in the state
-- that it starts from.
use machinecfg.Prelude.{
  ◌≡◌, ◌≢◌, refl, ◌∙◌, ap, ap₂, ◌⊎◌, inl, inr, Bool, true, false, List, [], ◌∷◌, if◌then◌else◌,
}
use machinecfg.Effect.{
  Outcome, ok, err, panic, Exec, Error, Reply, good, bad, of_reply, pure, ask, first, attempt,
  caught, crash, continue, ◌>>=◌,
}
use machinecfg.Effect.Meets.{Meets, EndsIn}
use machinecfg.Effect.Moves.{Moves, keeps}

module _ {S A : Type 0} (m : Exec S A) (s : S) (reads : Moves (keeps (λ s. s)) m) where
  pub ended : {o : Outcome A} → (m s).0 ≡ o → m s ≡ (o, s)
  ended e = ap₂ (λ o t. (o, t)) e (reads.at s)

  pub read-cases :
      {Q : A → Type 0}
      → Meets Unit Q m
      → ((a : A) × (m s ≡ (ok a, s)) × Q a) ⊎ ((e : Error) × (m s ≡ (err e, s)))
  read-cases {Q} meets = go (m s).0 refl (meets.at s)
    where
      go :
          (o : Outcome A)
          → (m s).0 ≡ o
          → EndsIn Unit Q o
          → ((a : A) × (m s ≡ (ok a, s)) × Q a) ⊎ ((e : Error) × (m s ≡ (err e, s)))
      go (ok a) h q = inl (a, ended h, q)
      go (err e) h q = inr (e, ended h)
      go panic h q = absurd q

  pub read-returns : {Q : A → Type 0} → Meets ⊥ Q m → (a : A) × (m s ≡ (ok a, s)) × Q a
  read-returns {Q} meets = go (m s).0 refl (meets.at s)
    where
      go : (o : Outcome A) → (m s).0 ≡ o → EndsIn ⊥ Q o → (a : A) × (m s ≡ (ok a, s)) × Q a
      go (ok a) h q = (a, ended h, q)
      go (err e) h q = absurd q
      go panic h q = absurd q

-- In this state, the action gives a value with what is asked of it, or an error, and writes nothing.
abbrev pub Ended : {S A : Type 0} → Exec S A → S → (A → Type 0) → Type 0
Ended {A} m s Q = ((a : A) × (m s ≡ (ok a, s)) × Q a) ⊎ ((e : Error) × (m s ≡ (err e, s)))

module _ {S A : Type 0} (s : S) where
  pub Ended-pure : {Q : A → Type 0} (a : A) → Q a → Ended (pure a) s Q
  unfolding pure
  Ended-pure a q = inl (a, refl, q)

  pub Ended-ask : (f : S → Reply A) → Ended (ask f) s (λ a. f s ≡ good a)
  unfolding ask
  Ended-ask f = go (f s)
    where
      go : (r : Reply A) → Ended {S = S} {A = A} (λ t. (of_reply r, t)) s (λ a. r ≡ good a)
      go (good a) = inl (a, refl, refl)
      go (bad e) = inr (e, refl)

  pub Ended-asked : (f : S → Reply A) → Ended (attempt (ask f)) s (λ r. f s ≡ r)
  unfolding attempt ask
  Ended-asked f = go (f s)
    where
      go :
          (r : Reply A) → Ended {S = S} {A = Reply A} (λ t. (caught (of_reply r), t)) s (λ a. r ≡ a)
      go (good a) = inl (good a, refl, refl)
      go (bad e) = inl (bad e, refl, refl)

  pub Ended-first :
      (xs : List A) → xs ≢ [] → Ended (first xs) s (λ x. (rest : List A) × (xs ≡ x ∷ rest))
  unfolding first crash pure
  Ended-first [] h = absurd (h refl)
  Ended-first (x ∷ xs) h = inl (x, refl, (xs, refl))

  pub Ended-if :
      {Q : A → Type 0} (b : Bool) (m n : Exec S A)
      → (b ≡ true → Ended m s Q)
      → (b ≡ false → Ended n s Q)
      → Ended (if b then m else n) s Q
  Ended-if true m n on_true on_false = on_true refl
  Ended-if false m n on_true on_false = on_false refl

pub Ended-bind :
    {S A B : Type 0} {Q : A → Type 0} {R : B → Type 0} (s : S) (m : Exec S A) (f : A → Exec S B)
    → Ended m s Q
    → ((a : A) → Q a → Ended (f a) s R)
    → Ended (m >>= f) s R
unfolding ◌>>=◌
Ended-bind s m f first_part more = elim first_part [
  | inr (e, failed) ↦ inr (e, ap (λ p. continue p.0 f p.1) failed)
  | inl (a, gave, q) ↦ elim (more a q) [
    | inl (b, then_gave, r) ↦ inl (b, ap (λ p. continue p.0 f p.1) gave ∙ then_gave, r)
    | inr (e, failed) ↦ inr (e, ap (λ p. continue p.0 f p.1) gave ∙ failed)
  ]
]
