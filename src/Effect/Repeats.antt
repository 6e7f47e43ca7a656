-- ===== src/Effect/Repeats.antt =====
-- Actions that a later run repeats: it gives the same answer, or an error for
-- a known reason, and leaves the state the same.
use machinecfg.Prelude.{
  ◌⊎◌, inl, inr, ◌≡◌, refl, sym, subst, Bool, true, false, String, if◌then◌else◌,
}
use machinecfg.Effect.{
  Error, Reply-cases, Outcome, ok, err, panic, Exec, Reply, bad, tell, pure, wrap, continue, ◌>>=◌,
}
use machinecfg.Effect.Moves.{Moves, Preorder}

-- The answer is given, or there is an error, for which there is a reason.
abbrev pub Answered : {S A : Type 0} → (Error → S → Type 0) → Outcome A × S → A → Type 0
Answered Reason r a = (r.0 ≡ ok a) ⊎ ((e : Error) × (r.0 ≡ err e) × Reason e r.1)

-- States are later along `P`, and the same along `E`. A later run may end in an error for a reason.
pub record Repeats {S A : Type 0} (Reason : Error → S → Type 0) (P E : Preorder S) (m : Exec S A)
    : Type 0 where
  pub at :
      (s : S) (a : A)
      → (m s).0 ≡ ok a
      → (u : S) → P.rel (m s).1 u
      → Answered Reason (m u) a × E.rel u (m u).1

module _ {S A : Type 0} {Reason : Error → S → Type 0} {P E : Preorder S} where
  pub Repeats-pure : (a : A) → Repeats Reason P E (pure a)
  unfolding pure
  Repeats-pure a = record { at = λ s b h u later. (inl h, E.stay u) }

  pub Repeats-if :
      (b : Bool) (m n : Exec S A)
      → Repeats Reason P E m
      → Repeats Reason P E n
      → Repeats Reason P E (if b then m else n)
  Repeats-if true m n p q = p
  Repeats-if false m n p q = q

  -- A request of which only the refusal is of interest.
  pub Repeats-tell_done :
      (f : S → Reply A × S) (g : String → String)
      → ((u : S) (e : Error) → (f u).0 ≡ bad e → Reason (record e { text = g e.text }) (f u).1)
      → ((u : S) → E.rel u (f u).1)
      → Repeats Reason P E (wrap g (tell f) >>= λ done. pure {A = Unit {0}} tt)
  unfolding ◌>>=◌
  Repeats-tell_done f g refused same = record { at = λ s a h u later. go u a }
    where
      go :
          (u : S) (a : Unit {0})
          → Answered Reason ((wrap g (tell f) >>= λ done. pure {A = Unit {0}} tt) u) a
            × E.rel u ((wrap g (tell f) >>= λ done. pure {A = Unit {0}} tt) u).1
      go u tt = elim (Reply-cases (f u).0) [
        | inl (x, done) ↦ rw done (inl refl, same u)
        | inr (e, failed) ↦ rw failed (inr (_, refl, refused u e failed), same u)
      ]

module _ {S A B : Type 0} {Reason : Error → S → Type 0} {P E : Preorder S} where
  pub Repeats-bind :
      (later : (s t : S) → E.rel s t → P.rel s t) (m : Exec S A) (f : A → Exec S B)
      → Repeats Reason P E m
      → ((a : A) → Moves P (f a))
      → ((a : A) → Repeats Reason P E (f a))
      → Repeats Reason P E (m >>= f)
  unfolding ◌>>=◌
  Repeats-bind later m f p moves q = record { at = λ s b h u after. go s (m s).0 refl b h u after }
    where
      go :
          (s : S) (o : Outcome A)
          → (m s).0 ≡ o
          → (b : B) → (continue o f (m s).1).0 ≡ ok b
          → (u : S) → P.rel (continue o f (m s).1).1 u
          → Answered Reason (continue (m u).0 f (m u).1) b × E.rel u (continue (m u).0 f (m u).1).1
      go s (ok a) e b h u after =
          let (answer, same) = p.at s a e u (P.go_on ((moves a).at (m s).1) after) in
          elim answer [
            | inl again ↦
                let (then_answer, still) =
                  (q a).at (m s).1 b h (m u).1 (P.go_on after (later u (m u).1 same)) in
                subst
                  (λ (o : Outcome A).
                    Answered Reason (continue o f (m u).1) b × E.rel u (continue o f (m u).1).1)
                  (sym again) (then_answer, E.go_on same still)
            | inr (x, failed, reason) ↦
                subst
                  (λ (o : Outcome A).
                    Answered Reason (continue o f (m u).1) b × E.rel u (continue o f (m u).1).1)
                  (sym failed) (inr (x, refl, reason), same)
          ]
      go s (err x) e b h u after = absurd (cc h)
      go s panic e b h u after = absurd (cc h)
