-- ===== src/Effect/Ends.antt =====
-- What holds of the state, and of the answer if there is one, when an action ends that starts from
-- a state.
use machinecfg.Prelude.{String, ◌≡◌, refl, Bool, true, false, List, [], ◌∷◌, if◌then◌else◌}
use machinecfg.Effect.{
  Outcome, ok, err, panic, Exec, Reply, good, bad, Error, pure, ask, tell, first, crash, attempt,
  wrap, on_left, continue, of_reply, caught, wrapped, ◌>>=◌,
}
use machinecfg.Effect.Moves.{Moves, Preorder}

module _ {S A : Type 0} where
  abbrev pub EndsAt : (S → Type 0) → (A → S → Type 0) → Outcome A → S → Type 0
  EndsAt G Q (ok a) s = Q a s
  EndsAt G Q (err e) s = G s
  EndsAt G Q panic s = G s

  abbrev pub Caught : (S → Type 0) → (A → S → Type 0) → Reply A → S → Type 0
  Caught G Q (good a) s = Q a s
  Caught G Q (bad e) s = G s

-- An answer meets `Q` with the state, and an error or a panic leaves a state that meets `G`.
pub record Ends {S A : Type 0} (G : S → Type 0) (Q : A → S → Type 0) (m : Exec S A) (s : S)
    : Type 0 where
  pub at : EndsAt G Q (m s).0 (m s).1

module _ {S A : Type 0} {G : S → Type 0} {Q : A → S → Type 0} where
  pub Ends-pure : (a : A) (s : S) → Q a s → Ends G Q (pure a) s
  unfolding pure
  Ends-pure a s q = record { at = q }

  pub Ends-ask :
      (f : S → Reply A) (s : S) → G s → ((a : A) → f s ≡ good a → Q a s) → Ends G Q (ask f) s
  unfolding ask
  Ends-ask f s g h = record { at = go (f s) h }
    where
      go : (r : Reply A) → ((a : A) → r ≡ good a → Q a s) → EndsAt G Q (of_reply r) s
      go (good a) k = k a refl
      go (bad e) k = g

  pub Ends-tell :
      (f : S → Reply A × S) (s : S)
      → ((e : Error) → (f s).0 ≡ bad e → G (f s).1)
      → ((a : A) → (f s).0 ≡ good a → Q a (f s).1)
      → Ends G Q (tell f) s
  unfolding tell
  Ends-tell f s g h = record { at = go (f s).0 g h }
    where
      go :
          (r : Reply A)
          → ((e : Error) → r ≡ bad e → G (f s).1)
          → ((a : A) → r ≡ good a → Q a (f s).1)
          → EndsAt G Q (of_reply r) (f s).1
      go (good a) k l = l a refl
      go (bad e) k l = k e refl

  pub Ends-first :
      (xs : List A) (s : S)
      → G s
      → ((x : A) (rest : List A) → xs ≡ x ∷ rest → Q x s)
      → Ends G Q (first xs) s
  unfolding first crash pure
  Ends-first [] s g h = record { at = g }
  Ends-first (x ∷ xs) s g h = record { at = h x xs refl }

  pub Ends-if :
      (b : Bool) (m n : Exec S A) (s : S)
      → (b ≡ true → Ends G Q m s)
      → (b ≡ false → Ends G Q n s)
      → Ends G Q (if b then m else n) s
  Ends-if true m n s p q = p refl
  Ends-if false m n s p q = q refl

  pub Ends-wrap :
      (f : String → String) (m : Exec S A) (s : S) → Ends G Q m s → Ends G Q (wrap f m) s
  unfolding wrap
  Ends-wrap f m s h = record { at = go (m s).0 (m s).1 h.at }
    where
      go : (o : Outcome A) (t : S) → EndsAt G Q o t → EndsAt G Q (wrapped f o) t
      go (ok a) t k = k
      go (err e) t k = k
      go panic t k = k

  -- The error becomes a value; only a panic still ends the caller.
  pub Ends-attempt :
      {H : S → Type 0} (m : Exec S A) (s : S)
      → ((t : S) → G t → H t)
      → Ends G Q m s
      → Ends H (Caught G Q) (attempt m) s
  unfolding attempt
  Ends-attempt {H} m s w h = record { at = go (m s).0 (m s).1 h.at }
    where
      go : (o : Outcome A) (t : S) → EndsAt G Q o t → EndsAt H (Caught G Q) (caught o) t
      go (ok a) t k = k
      go (err e) t k = k
      go panic t k = w t k

  pub Ends-weaken :
      {H : S → Type 0} {R : A → S → Type 0} (m : Exec S A) (s : S)
      → ((t : S) → G t → H t)
      → ((a : A) (t : S) → Q a t → R a t)
      → Ends G Q m s
      → Ends H R m s
  Ends-weaken {H} {R} m s w v h = record { at = go (m s).0 (m s).1 h.at }
    where
      go : (o : Outcome A) (t : S) → EndsAt G Q o t → EndsAt H R o t
      go (ok a) t k = v a t k
      go (err e) t k = w t k
      go panic t k = w t k

  pub Ends-on_left :
      {T : Type 0} (m : Exec S A) (w : S × T)
      → Ends G Q m w.0
      → Ends {S = S × T} (λ v. G v.0) (λ a v. Q a v.0) (on_left m) w
  unfolding on_left
  Ends-on_left {T} m w h = record { at = go (m w.0).0 h.at }
    where
      go :
          (o : Outcome A)
          → EndsAt G Q o (m w.0).1
          → EndsAt {S = S × T} (λ v. G v.0) (λ a v. Q a v.0) o ((m w.0).1, w.1)
      go (ok a) k = k
      go (err e) k = k
      go panic k = k

module _ {S A : Type 0} where
  -- An action that moves the state ends in a state that it has moved to.
  pub Ends-moved :
      (P : Preorder S) (m : Exec S A) (s : S) → Moves P m → Ends (P.rel s) (λ a. P.rel s) m s
  Ends-moved P m s h = record { at = go (m s).0 (h.at s) }
    where
      go : (o : Outcome A) → P.rel s (m s).1 → EndsAt (P.rel s) (λ a. P.rel s) o (m s).1
      go (ok a) k = k
      go (err e) k = k
      go panic k = k

module _ {S A B : Type 0} {G : S → Type 0} {Q : A → S → Type 0} {R : B → S → Type 0} where
  pub Ends-bind :
      (m : Exec S A) (f : A → Exec S B) (s : S)
      → Ends G Q m s
      → ((a : A) (t : S) → Q a t → Ends G R (f a) t)
      → Ends G R (m >>= f) s
  unfolding ◌>>=◌
  Ends-bind m f s h k = record { at = go (m s).0 (m s).1 h.at }
    where
      go :
          (o : Outcome A) (t : S)
          → EndsAt G Q o t
          → EndsAt G R (continue o f t).0 (continue o f t).1
      go (ok a) t q = (k a t q).at
      go (err e) t q = q
      go panic t q = q

-- The state in which an action ends.
pub Ends-state :
    {S A : Type 0} {G : S → Type 0} {m : Exec S A} {s : S} → Ends G (λ a. G) m s → G (m s).1
Ends-state {S} {A} {G} {m} {s} h = go (m s).0 (m s).1 h.at
  where
    go : (o : Outcome A) (t : S) → EndsAt G (λ a. G) o t → G t
    go (ok a) t k = k
    go (err e) t k = k
    go panic t k = k
