-- ===== src/Netbox/FindOrCreate/Laws.antt =====
-- Looking a record up or creating it, and doing so again.
use machinecfg.Prelude.{
  ℕ, suc, String, ◌≡◌, refl, ◌≢◌, ◌⊎◌, ◌∙◌, ap, sym, subst, Bool, true, false, List, [], ◌∷◌, arith,
  Bool-cases, inl, inr, ltb, nat_eq, string_eq,
}
use machinecfg.Effect.{Reply, good, bad, ok, err, panic, Error, Reply-cases, ◌>>=◌}
use machinecfg.Netbox.{Page}
use machinecfg.Netbox.FindOrCreate.{find_or_create}

-- What NetBox documents of its lists: a record that is created when the list of a query is empty is
-- the first record of that list afterwards.
abbrev pub ShowsCreated : {S A : Type 0} → (S → Reply (Page A)) → (S → Reply A × S) → Type 0
ShowsCreated {S} {A} list create =
    (s : S) (page : Page A) (a : A)
    → list s ≡ good page
    → page.count ≡ 0
    → (create s).0 ≡ good a
    → (n : ℕ) × (rest : List A) × (list (create s).1
        ≡ good (record { count = suc n; results = a ∷ rest }))

-- The list shows the object first.
abbrev pub Shows : {S A : Type 0} → (S → Reply (Page A)) → S → A → Type 0
Shows {A} list s a =
    (page : Page A) × (rest : List A) × (list s ≡ good page)
    × (ltb 0 page.count ≡ true)
    × (page.results ≡ a ∷ rest)

List-cases : {A : Type 0} (xs : List A) → (xs ≡ []) ⊎ ((x : A) × (rest : List A) × (xs ≡ x ∷ rest))
List-cases [] = inl refl
List-cases (x ∷ xs) = inr (x, xs, refl)

module _ {A : Type 0} {a : A × Bool} where
  ok≢err : {e : Error} → ok a ≢ err e
  ok≢err h = cc h

  ok≢panic : ok a ≢ panic
  ok≢panic h = cc h

  ok-injective : {b : A × Bool} → ok a ≡ ok b → a ≡ b
  ok-injective h = cc h

module _ {S A : Type 0} (f g : String → String) (list : S → Reply (Page A))
    (create : S → Reply A × S) where
  -- What is shown is found, and nothing is created.
  pub find_or_create-found :
      (s : S) (a : A) → Shows list s a → find_or_create f g list create s ≡ (ok (a, false), s)
  unfolding ◌>>=◌
  find_or_create-found s a (page, rest, h, counted, results) = rw (h, counted, results)

  shown_none :
      (s : S) (page : Page A)
      → list s ≡ good page
      → ltb 0 page.count ≡ true
      → page.results ≡ []
      → (find_or_create f g list create s).0 ≡ panic
  unfolding ◌>>=◌
  shown_none s page h counted results = rw (h, counted, results)

  unlisted :
      (s : S) (e : Error)
      → list s ≡ bad e
      → (e' : Error) × ((find_or_create f g list create s).0 ≡ err e')
  unfolding ◌>>=◌
  unlisted s e h = rw h (_, refl)

  made :
      (s : S) (page : Page A) (a : A)
      → list s ≡ good page
      → ltb 0 page.count ≡ false
      → (create s).0 ≡ good a
      → find_or_create f g list create s ≡ (ok (a, true), (create s).1)
  unfolding ◌>>=◌
  made s page a h counted done = rw (h, counted, done)

  refused :
      (s : S) (page : Page A) (e : Error)
      → list s ≡ good page
      → ltb 0 page.count ≡ false
      → (create s).0 ≡ bad e
      → (e' : Error) × ((find_or_create f g list create s).0 ≡ err e')
  unfolding ◌>>=◌
  refused s page e h counted done = rw (h, counted, done) (_, refl)

  -- What the list counts none of, in this state.
  abbrev pub CountsNone : S → Type 0
  CountsNone s = (page : Page A) × (list s ≡ good page) × (ltb 0 page.count ≡ false)

  -- The state is that before, or, if the list counts none, that after the creation.
  pub find_or_create-leaves :
      (s : S)
      → ((find_or_create f g list create s).1 ≡ s)
        ⊎ (CountsNone s × ((find_or_create f g list create s).1 ≡ (create s).1))
  unfolding ◌>>=◌
  find_or_create-leaves s = elim (Reply-cases (list s)) [
    | inr (e, failed) ↦ rw failed (inl refl)
    | inl (page, listed) ↦ elim (Bool-cases (ltb 0 page.count)) [
      | inl counted ↦ elim (List-cases page.results) [
        | inl none_shown ↦ rw (listed, counted, none_shown) (inl refl)
        | inr (x, rest, results) ↦ rw (listed, counted, results) (inl refl)
      ]
      | inr counted ↦ elim (Reply-cases (create s).0) [
        | inr (e, failed) ↦ rw (listed, counted, failed) (inr ((page, refl, counted), refl))
        | inl (x, done) ↦ rw (listed, counted, done) (inr ((page, refl, counted), refl))
      ]
    ]
  ]

  -- What a look-up returns is shown after it.
  pub find_or_create-Shows :
      (s : S) (a : A) (created : Bool)
      → ShowsCreated list create
      → (find_or_create f g list create s).0 ≡ ok (a, created)
      → Shows list (find_or_create f g list create s).1 a
  find_or_create-Shows s a created shows h = elim (Reply-cases (list s)) [
    | inr (e, failed) ↦ absurd (ok≢err (sym h ∙ (unlisted s e failed).1))
    | inl (page, listed) ↦ elim (Bool-cases (ltb 0 page.count)) [
      | inl counted ↦ elim (List-cases page.results) [
        | inl none_shown ↦ absurd (ok≢panic (sym h ∙ shown_none s page listed counted none_shown))
        | inr (x, rest, results) ↦
            let first = find_or_create-found s x (page, rest, listed, counted, results) in
            let same = ap (λ r. r.0) (ok-injective (sym h ∙ ap (λ r. r.0) first)) in
            subst (λ t. Shows list t a) (sym (ap (λ r. r.1) first))
              (subst (Shows list s) (sym same) (page, rest, listed, counted, results))
      ]
      | inr counted ↦ elim (Reply-cases (create s).0) [
        | inr (e, failed) ↦ absurd (ok≢err (sym h ∙ (refused s page e listed counted failed).1))
        | inl (x, done) ↦
            let first = made s page x listed counted done in
            let same = ap (λ r. r.0) (ok-injective (sym h ∙ ap (λ r. r.0) first)) in
            let (n, rest, now) = shows s page x listed (ground arith) done in
            subst (λ t. Shows list t a) (sym (ap (λ r. r.1) first))
              (subst (Shows list (create s).1) (sym same) (_, rest, now, ground arith, refl))
      ]
    ]
  ]

module _ {S A : Type 0} (f g f' g' : String → String) (list : S → Reply (Page A))
    (create create' : S → Reply A × S) where
  pub find_or_create-twice :
      (s : S) (a : A) (created : Bool)
      → ShowsCreated list create
      → (find_or_create f g list create s).0 ≡ ok (a, created)
      → find_or_create f' g' list create' (find_or_create f g list create s).1
        ≡ (ok (a, false), (find_or_create f g list create s).1)
  find_or_create-twice s a created shows h =
      find_or_create-found f' g' list create' _ a
        (find_or_create-Shows f g list create s a created shows h)
