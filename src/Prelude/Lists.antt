-- ===== src/Prelude/Lists.antt =====
-- Lists measured by native numbers, a predicate on every element, and Go's maps with text keys.
use Prim.Native.Nat.{ℕ, suc, ◌+◌}
use Prim.Native.String.{String}
use mathlib.Core.Path.{◌≡◌, refl}
use mathlib.Core.Logic.{◌⊎◌, inl, inr}
use mathlib.Core.Bool.{Bool}
use mathlib.Core.Option.{Option, none, some}
use mathlib.Core.List.{List, [], ◌∷◌, ◌++◌}
use native.Mathlib.Omega.{arith}
use text.Mathlib.TextEquality.{eq_iff}
use machinecfg.Prelude.Tests.{◌==◌, string_eq, if◌then◌else◌}

module _ {ℓ} {A : Type ℓ} where
  abbrev pub length : List A → ℕ
  length [] = 0
  length (x ∷ xs) = suc (length xs)

  -- The elements that pass a test, in order.
  abbrev pub keep : (A → Bool) → List A → List A
  keep p [] = []
  keep p (x ∷ xs) = let rest = keep p xs in if p x then x ∷ rest else rest

  pub length-append : (xs ys : List A) → length (xs ++ ys) ≡ length xs + length ys
  length-append [] ys = omega arith
  length-append (x ∷ xs) ys = omega (arith, length-append xs ys)

module _ {ℓ κ} {A : Type ℓ} (P : A → Type κ) where
  abbrev pub All : List A → Type κ
  All [] = Unit
  All (x ∷ xs) = P x × All xs

module _ {ℓ} {A : Type ℓ} (P : A → Type 0) where
  abbrev pub Exists : List A → Type 0
  Exists [] = ⊥
  Exists (x ∷ xs) = P x ⊎ Exists xs

module _ {ℓ κ} {A : Type ℓ} (P : A → Type κ) where
  pub All-append : (xs ys : List A) → All P xs → All P ys → All P (xs ++ ys)
  All-append [] ys h k = k
  All-append (x ∷ xs) ys (p, h) k = (p, All-append xs ys h k)

  pub All-append-parts : (xs ys : List A) → All P (xs ++ ys) → All P xs × All P ys
  All-append-parts [] ys h = (tt, h)
  All-append-parts (x ∷ xs) ys (p, h) = let (q, k) = All-append-parts xs ys h in ((p, q), k)

module _ {ℓ} {A : Type ℓ} {P Q : A → Type 0} where
  pub All-map : ((x : A) → P x → Q x) → (xs : List A) → All P xs → All Q xs
  All-map f [] h = tt
  All-map f (x ∷ xs) (p, h) = (f x p, All-map f xs h)

  pub Exists-All : (xs : List A) → Exists P xs → All Q xs → (x : A) × P x × Q x
  Exists-All [] h k = absurd h
  Exists-All (x ∷ xs) (inl p) (q, k) = (x, p, q)
  Exists-All (x ∷ xs) (inr h) (q, k) = Exists-All xs h k

-- A Go map with text keys: the pairs in the order of their insertion.
abbrev pub Dict {ℓ} : Type ℓ → Type ℓ
Dict V = List (String × V)

module _ {ℓ} {V : Type ℓ} where
  abbrev pub lookup : String → Dict V → Option V
  lookup key [] = none
  lookup key ((k, value) ∷ dict) = if k == key then some value else lookup key dict

  abbrev pub insert : String → V → Dict V → Dict V
  insert key value [] = (key, value) ∷ []
  insert key value ((k, old) ∷ dict) =
      if k == key then (key, value) ∷ dict else (k, old) ∷ insert key value dict

  pub lookup-insert :
      (key sought : String) (value : V) (dict : Dict V)
      → lookup sought (insert key value dict)
        ≡ (if key == sought then some value else lookup sought dict)
  lookup-insert key sought value [] = refl
  lookup-insert key sought value ((k, old) ∷ dict) =
      ground (
        arith,
        lookup-insert key sought value dict,
        eq_iff k key,
        eq_iff k sought,
        eq_iff key sought,
      )

abbrev pub or_empty : Option String → String
or_empty none = ""
or_empty (some v) = v

-- `m[k]` on a map of texts: the empty text for a missing key.
abbrev pub get_text : Dict String → String → String
get_text m k = or_empty (lookup k m)
