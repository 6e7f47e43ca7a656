-- ===== src/Effect/Moves.antt =====
-- Actions that move the state along a preorder, however they end.
use machinecfg.Prelude.{
  String, ◌≡◌, refl, ◌∙◌, ap₂, Bool, true, false, Option, none, some, List, [], ◌∷◌, if◌then◌else◌,
}
use machinecfg.Effect.{
  Outcome, ok, err, panic, crash, Exec, Reply, Error, pure, raise, ask, tell, first, deref, attempt,
  wrap, on_left, on_right, continue, ◌>>=◌,
}

pub record Preorder (S : Type 0) : Type 1 where
  pub rel : S → S → Type 0
  pub stay : (s : S) → rel s s
  pub go_on : {s t u : S} → rel s t → rel t u → rel s u

-- What is seen of a state stays the same.
abbrev pub keeps : {S T : Type 0} → (S → T) → Preorder S
keeps view = record { rel = λ s t. view t ≡ view s; stay = λ s. refl; go_on = λ p q. q ∙ p }

-- Any change is allowed.
abbrev pub anyhow : {S : Type 0} → Preorder S
anyhow = record { rel = λ s t. Unit; stay = λ s. tt; go_on = λ p q. tt }

-- A preorder on each of two states.
abbrev pub both : {S T : Type 0} → Preorder S → Preorder T → Preorder (S × T)
both P Q = record {
  rel = λ w v. P.rel w.0 v.0 × Q.rel w.1 v.1;
  stay = λ w. (P.stay w.0, Q.stay w.1);
  go_on = λ p q. (P.go_on p.0 q.0, Q.go_on p.1 q.1);
}

pub record Moves {S A : Type 0} (P : Preorder S) (m : Exec S A) : Type 0 where
  pub at : (s : S) → P.rel s (m s).1

module _ {S A : Type 0} {P : Preorder S} where
  pub Moves-pure : (a : A) → Moves P (pure a)
  unfolding pure
  Moves-pure a = record { at = P.stay }

  pub Moves-raise : (e : Error) → Moves {A = A} P (raise e)
  unfolding raise
  Moves-raise e = record { at = P.stay }

  pub Moves-crash : Moves {A = A} P crash
  unfolding crash
  Moves-crash = record { at = P.stay }

  pub Moves-ask : (f : S → Reply A) → Moves P (ask f)
  unfolding ask
  Moves-ask f = record { at = P.stay }

  pub Moves-tell : (f : S → Reply A × S) → ((s : S) → P.rel s (f s).1) → Moves P (tell f)
  unfolding tell
  Moves-tell f h = record { at = h }

  pub Moves-first : (xs : List A) → Moves P (first xs)
  unfolding first crash pure
  Moves-first [] = record { at = P.stay }
  Moves-first (x ∷ xs) = record { at = P.stay }

  pub Moves-deref : (a : Option A) → Moves P (deref a)
  unfolding deref crash pure
  Moves-deref none = record { at = P.stay }
  Moves-deref (some a) = record { at = P.stay }

  pub Moves-if : (b : Bool) (m n : Exec S A) → Moves P m → Moves P n → Moves P (if b then m else n)
  Moves-if true m n p q = p
  Moves-if false m n p q = q

  pub Moves-wrap : (f : String → String) (m : Exec S A) → Moves P m → Moves P (wrap f m)
  unfolding wrap
  Moves-wrap f m p = record { at = p.at }

  pub Moves-attempt : (m : Exec S A) → Moves P m → Moves P (attempt m)
  unfolding attempt
  Moves-attempt m p = record { at = p.at }

module _ {S A B : Type 0} {P : Preorder S} where
  pub Moves-bind :
      (m : Exec S A) (f : A → Exec S B) → Moves P m → ((a : A) → Moves P (f a)) → Moves P (m >>= f)
  unfolding ◌>>=◌
  Moves-bind m f p q = record { at = λ s. P.go_on (p.at s) (go (m s).0 (m s).1) }
    where
      go : (o : Outcome A) (s : S) → P.rel s (continue o f s).1
      go (ok a) s = (q a).at s
      go (err e) s = P.stay s
      go panic s = P.stay s

module _ {S T A : Type 0} (P : Preorder S) (Q : Preorder T) where
  pub Moves-on_left : (m : Exec S A) → Moves P m → Moves (both P Q) (on_left m)
  unfolding on_left
  Moves-on_left m p = record { at = λ w. (p.at w.0, Q.stay w.1) }

  pub Moves-on_right : (m : Exec T A) → Moves Q m → Moves (both P Q) (on_right m)
  unfolding on_right
  Moves-on_right m p = record { at = λ w. (P.stay w.0, p.at w.1) }

pub ruleset reads = (
  Moves-pure, Moves-raise, Moves-crash, Moves-ask, Moves-first, Moves-deref, Moves-if, Moves-wrap,
  Moves-attempt, Moves-bind, Moves-on_left, Moves-on_right,
)

-- An action that keeps all of two states returns the pair that it was given.
pub Moves-nothing :
    {S T A : Type 0} {m : Exec (S × T) A}
    → Moves (both (keeps (λ s. s)) (keeps (λ t. t))) m
    → (w : S × T) → (m w).1 ≡ w
Moves-nothing h w = ap₂ (λ s t. (s, t)) (h.at w).0 (h.at w).1
