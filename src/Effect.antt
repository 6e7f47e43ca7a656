-- ===== src/Effect.antt =====
-- Go functions that return `(value, error)`, may panic, and act on a remote system whose state is
-- `S`. What was written before an error or a panic stays written, so the state comes back too.
pub mod Meets
pub mod Moves
pub mod Ends
pub mod Inverts
pub mod Reads
pub mod Repeats
use machinecfg.Prelude.{
  String, Bool, true, false, ◌≡◌, refl, ◌⊎◌, inl, inr, List, [], ◌∷◌, Option, none, some,
}

-- An error value: its text, and what `errors.IsNotFound` and `errors.IsAlreadyExists` tell of it.
pub data ErrorKind : Type 0 where
  not_found already_exists other : ErrorKind

pub record Error : Type 0 where
  pub kind : ErrorKind
  pub text : String

-- What a call of a client library returns.
pub data Reply {ℓ} (A : Type ℓ) : Type ℓ where
  good : A → Reply A
  bad : Error → Reply A

pub data Outcome {ℓ} (A : Type ℓ) : Type ℓ where
  ok : A → Outcome A
  err : Error → Outcome A
  panic : Outcome A

module _ {ℓ} {A : Type ℓ} where
  abbrev pub of_reply : Reply A → Outcome A
  of_reply (good a) = ok a
  of_reply (bad e) = err e

  abbrev pub caught : Outcome A → Outcome (Reply A)
  caught (ok a) = ok (good a)
  caught (err e) = ok (bad e)
  caught panic = panic

  abbrev pub wrapped : (String → String) → Outcome A → Outcome A
  wrapped f (ok a) = ok a
  wrapped f (err e) = err (record e { text = f e.text })
  wrapped f panic = panic

abbrev pub Exec {ℓ} : Type ℓ → Type ℓ → Type ℓ
Exec S A = S → Outcome A × S

module _ {ℓ} {S A : Type ℓ} where
  unfoldable pub pure : A → Exec S A
  pure a s = (ok a, s)

  unfoldable pub raise : Error → Exec S A
  raise e s = (err e, s)

  unfoldable pub crash : Exec S A
  crash s = (panic, s)

  -- A request that changes nothing, and one that may.
  unfoldable pub ask : (S → Reply A) → Exec S A
  ask f s = (of_reply (f s), s)

  unfoldable pub tell : (S → Reply A × S) → Exec S A
  tell f s = (of_reply (f s).0, (f s).1)

  -- `xs[0]`, which panics on an empty slice.
  unfoldable pub first : List A → Exec S A
  first [] = crash
  first (x ∷ xs) = pure x

  -- `*p`, which panics on a nil pointer.
  unfoldable pub deref : Option A → Exec S A
  deref none = crash
  deref (some a) = pure a

  -- `a, err := m` followed by a test of `err`: the error is a value, a panic is not caught.
  unfoldable pub attempt : Exec S A → Exec S (Reply A)
  attempt m s = (caught (m s).0, (m s).1)

  -- `fmt.Errorf("text: %w", err)`: the kind is that of the wrapped error.
  unfoldable pub wrap : (String → String) → Exec S A → Exec S A
  wrap f m s = (wrapped f (m s).0, (m s).1)

-- A program that speaks to two systems: a step that concerns one of them leaves the other alone.
module _ {S T A : Type 0} where
  unfoldable pub on_left : Exec S A → Exec (S × T) A
  on_left m (s, t) = ((m s).0, ((m s).1, t))

  unfoldable pub on_right : Exec T A → Exec (S × T) A
  on_right m (s, t) = ((m t).0, (s, (m t).1))

module _ {ℓ} {S A B : Type ℓ} where
  abbrev pub continue : Outcome A → (A → Exec S B) → Exec S B
  continue (ok a) f s = f a s
  continue (err e) f s = (err e, s)
  continue panic f s = (panic, s)

  infixl 10 ◌>>=◌
  -- Opening this opens the actions above too.
  unfoldable pub ◌>>=◌ : Exec S A → (A → Exec S B) → Exec S B
  unfolding pure raise crash ask tell first deref attempt wrap on_left on_right
  ◌>>=◌ m f s = continue (m s).0 f (m s).1

module _ {ℓ} {S B : Type ℓ} where
  infixl 10 ◌>>◌
  abbrev pub ◌>>◌ : Exec S (Unit {ℓ}) → Exec S B → Exec S B
  m >> n = m >>= λ _. n

module _ {ℓ} {S A B C : Type ℓ} where
  pub bind_assoc :
      (m : Exec S A) (f : A → Exec S B) (g : B → Exec S C) (s : S)
      → (m >>= f >>= g) s ≡ (m >>= λ a. f a >>= g) s
  unfolding ◌>>=◌
  bind_assoc m f g s = go (m s).0 (m s).1
    where
      go :
          (o : Outcome A) (s : S)
          → continue (continue o f s).0 g (continue o f s).1 ≡ continue o (λ a. f a >>= g) s
      go (ok a) s = refl
      go (err e) s = refl
      go panic s = refl

-- `errors.New` and `fmt.Errorf` with no wrapped error.
abbrev pub error : String → Error
error text = record { kind = ErrorKind.other; text = text }

-- To split on a reply and keep the equation.
pub Reply-cases {ℓ} :
    {A : Type ℓ} (r : Reply A) → ((a : A) × (r ≡ good a)) ⊎ ((e : Error) × (r ≡ bad e))
Reply-cases (good a) = inl (a, refl)
Reply-cases (bad e) = inr (e, refl)
