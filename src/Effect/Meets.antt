-- ===== src/Effect/Meets.antt =====
-- Actions that never panic, with what their value satisfies. `E` is what an error entails: ⊥ for an
-- action that always returns a value, Unit for one that may fail.
use machinecfg.Prelude.{
  String, ◌≡◌, refl, ◌≢◌, some, Bool, true, false, List, [], ◌∷◌, All, if◌then◌else◌,
}
use machinecfg.Effect.{
  Outcome, ok, err, panic, crash, Exec, Reply, good, bad, Error, pure, raise, ask, tell, first,
  deref, attempt, wrap, on_left, on_right, of_reply, caught, wrapped, continue, ◌>>=◌,
}

module _ {A : Type 0} where
  abbrev pub EndsIn : Type 0 → (A → Type 0) → Outcome A → Type 0
  EndsIn E Q (ok a) = Q a
  EndsIn E Q (err e) = E
  EndsIn E Q panic = ⊥

  abbrev pub ReplyIn : (A → Type 0) → Reply A → Type 0
  ReplyIn Q (good a) = Q a
  ReplyIn Q (bad e) = Unit

  -- A request that is answered.
  abbrev pub AnswersIn : (A → Type 0) → Reply A → Type 0
  AnswersIn Q (good a) = Q a
  AnswersIn Q (bad e) = ⊥

pub record Meets {S A : Type 0} (E : Type 0) (Q : A → Type 0) (m : Exec S A) : Type 0 where
  pub at : (s : S) → EndsIn E Q (m s).0

module _ {S A : Type 0} {E : Type 0} {Q : A → Type 0} where
  pub Meets-pure : (a : A) → Q a → Meets {S = S} E Q (pure a)
  unfolding pure
  Meets-pure a q = record { at = λ s. q }

  pub Meets-first : (xs : List A) → xs ≢ [] → ((x : A) → Q x) → Meets {S = S} E Q (first xs)
  unfolding first crash pure
  Meets-first [] h q = absurd (h refl)
  Meets-first (x ∷ xs) h q = record { at = λ s. q x }

  pub Meets-first-All : (xs : List A) → xs ≢ [] → All Q xs → Meets {S = S} E Q (first xs)
  unfolding first crash pure
  Meets-first-All [] h all = absurd (h refl)
  Meets-first-All (x ∷ xs) h (q, all) = record { at = λ s. q }

  pub Meets-if :
      (b : Bool) (m n : Exec S A)
      → (b ≡ true → Meets E Q m)
      → (b ≡ false → Meets E Q n)
      → Meets E Q (if b then m else n)
  Meets-if true m n tm tn = tm refl
  Meets-if false m n tm tn = tn refl

  pub Meets-wrap : (f : String → String) (m : Exec S A) → Meets E Q m → Meets E Q (wrap f m)
  unfolding wrap
  Meets-wrap f m t = record { at = λ s. go (m s).0 (t.at s) }
    where
      go : (o : Outcome A) → EndsIn E Q o → EndsIn E Q (wrapped f o)
      go (ok a) q = q
      go (err e) q = q
      go panic q = q

  pub Meets-on_left : {T : Type 0} (m : Exec S A) → Meets E Q m → Meets {S = S × T} E Q (on_left m)
  unfolding on_left
  Meets-on_left m t = record { at = λ w. t.at w.0 }

  pub Meets-on_right :
      {T : Type 0} (m : Exec S A) → Meets E Q m → Meets {S = T × S} E Q (on_right m)
  unfolding on_right
  Meets-on_right m t = record { at = λ w. t.at w.1 }

module _ {S A : Type 0} {Q : A → Type 0} where
  pub Meets-raise : (e : Error) → Meets {S = S} Unit Q (raise e)
  unfolding raise
  Meets-raise e = record { at = λ s. tt }

  pub Meets-ask : (f : S → Reply A) → ((s : S) → ReplyIn Q (f s)) → Meets Unit Q (ask f)
  unfolding ask
  Meets-ask f h = record { at = λ s. go (f s) (h s) }
    where
      go : (r : Reply A) → ReplyIn Q r → EndsIn Unit Q (of_reply r)
      go (good a) q = q
      go (bad e) q = q

  pub Meets-tell : (f : S → Reply A × S) → ((s : S) → ReplyIn Q (f s).0) → Meets Unit Q (tell f)
  unfolding tell
  Meets-tell f h = record { at = λ s. go (f s).0 (h s) }
    where
      go : (r : Reply A) → ReplyIn Q r → EndsIn Unit Q (of_reply r)
      go (good a) q = q
      go (bad e) q = q

  -- After an attempt the error is a value: nothing is left to fail.
  pub Meets-attempt : (E : Type 0) (m : Exec S A) → Meets Unit Q m → Meets E (ReplyIn Q) (attempt m)
  unfolding attempt
  Meets-attempt E m t = record { at = λ s. go (m s).0 (t.at s) }
    where
      go : (o : Outcome A) → EndsIn Unit Q o → EndsIn E (ReplyIn Q) (caught o)
      go (ok a) q = q
      go (err e) q = tt
      go panic q = q

  pub Meets-answered :
      (E : Type 0) (f : S → Reply A)
      → ((s : S) → AnswersIn Q (f s))
      → Meets E (AnswersIn Q) (attempt (ask f))
  unfolding attempt ask
  Meets-answered E f h = record { at = λ s. go (f s) (h s) }
    where
      go : (r : Reply A) → AnswersIn Q r → EndsIn E (AnswersIn Q) (caught (of_reply r))
      go (good a) q = q
      go (bad e) q = q

module _ {S A B : Type 0} {E : Type 0} {Q : A → Type 0} {R : B → Type 0} where
  pub Meets-bind :
      (m : Exec S A) (f : A → Exec S B)
      → Meets E Q m
      → ((a : A) → Q a → Meets E R (f a))
      → Meets E R (m >>= f)
  unfolding ◌>>=◌
  Meets-bind m f tm tf = record { at = λ s. go (m s).0 (m s).1 (tm.at s) }
    where
      go : (o : Outcome A) (s : S) → EndsIn E Q o → EndsIn E R (continue o f s).0
      go (ok a) s q = (tf a q).at s
      go (err e) s q = q
      go panic s q = q

pub Meets-weaken :
    {S A : Type 0} {E : Type 0} {Q R : A → Type 0} (m : Exec S A)
    → ((a : A) → Q a → R a)
    → Meets E Q m
    → Meets E R m
Meets-weaken {A} {E} {Q} {R} m h t = record { at = λ s. go (m s).0 (t.at s) }
  where
    go : (o : Outcome A) → EndsIn E Q o → EndsIn E R o
    go (ok a) q = h a q
    go (err e) q = q
    go panic q = q

-- An action that never fails may be used where an action may.
pub never_fails : {S A : Type 0} {Q : A → Type 0} {m : Exec S A} → Meets ⊥ Q m → Meets Unit Q m
never_fails {A} {Q} {m} t = record { at = λ s. go (m s).0 (t.at s) }
  where
    go : (o : Outcome A) → EndsIn ⊥ Q o → EndsIn Unit Q o
    go (ok a) q = q
    go (err e) q = tt
    go panic q = q

-- The value that an action returns, from any state.
pub Meets-returns :
    {S A : Type 0} {Q : A → Type 0} (m : Exec S A)
    → Meets ⊥ Q m
    → (s : S) → (a : A) × ((m s).0 ≡ ok a) × Q a
Meets-returns {A} {Q} m t s = go (m s).0 (t.at s)
  where
    go : (o : Outcome A) → EndsIn ⊥ Q o → (a : A) × (o ≡ ok a) × Q a
    go (ok a) q = (a, refl, q)
    go (err e) q = absurd q
    go panic q = absurd q

-- Any value will do.
abbrev pub Anything : {A : Type 0} → A → Type 0
Anything a = Unit

-- What is asked of a reply when any value will do.
pub anything : {A : Type 0} (r : Reply A) → ReplyIn Anything r
anything (good a) = tt
anything (bad e) = tt

module _ {S A : Type 0} where
  pub ask-Meets : (f : S → Reply A) → Meets Unit Anything (ask f)
  ask-Meets f = Meets-ask f (λ s. anything (f s))

  pub tell-Meets : (f : S → Reply A × S) → Meets Unit Anything (tell f)
  tell-Meets f = Meets-tell f (λ s. anything (f s).0)

  -- A pointer that is known.
  pub deref-Meets : {E : Type 0} (a : A) → Meets {S = S} E (λ b. b ≡ a) (deref (some a))
  unfolding deref pure
  deref-Meets a = record { at = λ s. refl }
