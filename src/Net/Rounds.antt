-- ===== src/Net/Rounds.antt =====
-- The rounds of `parseIPv6`, of which each reads two of sixteen bytes.
use Prim.Native.String.{[], ◌∷◌}
use machinecfg.Prelude.{
  ℕ, zero, suc, ◌+◌, ◌*◌, ◌/◌, ◌%◌, ◌≤◌, code, String, ◌≡◌, ◌≢◌, refl, ◌∙◌, ap, sym, Bool, true,
  false, Bool-cases, Option-cases, none, some, [], ◌∷◌, length-append, inl, inr, leb, ◌==◌, nat_eq,
  string_eq, if◌then◌else◌, arith, ◌⊎◌,
}
use machinecfg.Net.{
  Halves, bytes_read, add_bytes, After, finished, field, invalid, hex_field, after_colon,
  after_field, starts_dotted, no_ellipsis, v6_from,
}

field-same : {h h' : Halves} {s s' : String} → field h s ≡ field h' s' → h ≡ h'
field-same e = cc e

finished≢field : {h h' : Halves} {s : String} → finished h ≢ field h' s
finished≢field e = cc e

invalid≢field : {h : Halves} {s : String} → invalid ≢ field h s
invalid≢field e = cc e

same_bytes : {h h' : Halves} → h ≡ h' → bytes_read h' ≡ bytes_read h
same_bytes e = ap bytes_read (sym e)

-- The value of a test is that of one of its branches.
branch :
    {A P : Type 0} (b : Bool) (m n : A) {a : A}
    → (m ≡ a → P)
    → (n ≡ a → P)
    → (if b then m else n) ≡ a
    → P
branch true m n p q e = p e
branch false m n p q e = q e

after_colon-bytes :
    (h : Halves) (s : String) {h' : Halves} {s' : String}
    → after_colon h s ≡ field h' s'
    → bytes_read h' ≡ bytes_read h
unfolding after_colon
after_colon-bytes h [] e = absurd (invalid≢field e)
after_colon-bytes (none, bytes) (c ∷ s) e =
    branch (code c == b':') _ _
      (branch (s == "") _ _ (λ p. absurd (finished≢field p))
        (λ p. same_bytes (field-same p) ∙ omega arith))
      (λ p. same_bytes (field-same p)) e
after_colon-bytes (some front, bytes) (c ∷ s) e =
    branch (code c == b':') _ _ (λ p. absurd (invalid≢field p)) (λ p. same_bytes (field-same p)) e

after_field-bytes :
    (h : Halves) (s : String) {h' : Halves} {s' : String}
    → after_field h s ≡ field h' s'
    → bytes_read h' ≡ bytes_read h
unfolding after_field
after_field-bytes h [] e = absurd (finished≢field e)
after_field-bytes h (c ∷ s) e =
    branch (code c == b':') _ _ (after_colon-bytes h s) (λ p. absurd (invalid≢field p)) e

add_bytes-bytes : (h : Halves) (a b : ℕ) → bytes_read (add_bytes h (a ∷ b ∷ [])) ≡ bytes_read h + 2
add_bytes-bytes (none, bytes) a b = length-append bytes (a ∷ b ∷ [])
add_bytes-bytes (some front, bytes) a b = omega (arith, length-append bytes (a ∷ b ∷ []))

v6_from-full : (k : ℕ) (h : Halves) (s : String) → 16 ≤ bytes_read h → v6_from k h s ≡ none
unfolding v6_from
v6_from-full zero h s full = refl
v6_from-full (suc k) h s full =
    let is_full : leb 16 (bytes_read h) ≡ true = ground (arith, full) in rw is_full

After-cases :
    (a : After)
    → ((h : Halves) × (a ≡ finished h))
      ⊎ (((h : Halves) × (s : String) × (a ≡ field h s)) ⊎ (a ≡ invalid))
After-cases (finished h) = inl (h, refl)
After-cases (field h s) = inr (inl (h, s, refl))
After-cases invalid = inr (inr refl)

v6_from-round :
    (f g : ℕ) (h : Halves) (s : String)
    → ((h' : Halves) (s' : String)
        → bytes_read h' ≡ bytes_read h + 2
        → v6_from g h' s' ≡ v6_from f h' s')
    → v6_from (suc g) h s ≡ v6_from (suc f) h s
unfolding v6_from
v6_from-round f g h s rest = elim (Bool-cases (leb 16 (bytes_read h))) [
  | inl full ↦ rw full refl
  | inr room ↦ elim (Option-cases (hex_field 0 0 s)) [
    | inl no_field ↦ rw (room, no_field) refl
    | inr ((acc, off, text), read) ↦ elim (Bool-cases (off == 0)) [
      | inl empty ↦ rw (room, read, empty) refl
      | inr digits ↦ elim (Bool-cases (starts_dotted text)) [
        | inl dotted ↦ rw (room, read, digits, dotted) refl
        | inr plain ↦
            elim (After-cases (after_field (add_bytes h (acc / 256 ∷ acc % 256 ∷ [])) text)) [
              | inl (h', ends) ↦ rw (room, read, digits, plain, ends) refl
              | inr (inl (h', s', goes_on)) ↦
                  rw (room, read, digits, plain, goes_on)
                    (rest h' s' (
                      after_field-bytes _ text goes_on ∙ add_bytes-bytes h (acc / 256) (acc % 256)))
              | inr (inr fails) ↦ rw (room, read, digits, plain, fails) refl
            ]
      ]
    ]
  ]
]

-- With as many rounds as pairs of bytes are missing, more rounds give the same result.
v6_from-enough :
    (f k : ℕ) (h : Halves) (s : String)
    → 16 ≤ bytes_read h + 2 * f
    → v6_from (f + k) h s ≡ v6_from f h s
unfolding v6_from
v6_from-enough zero k h s enough = v6_from-full (0 + k) h s (omega (arith, enough))
v6_from-enough (suc f) k h s enough =
    let more : suc f + k ≡ suc (f + k) = omega arith in
    ap (λ n. v6_from n h s) more
    ∙ v6_from-round f (f + k) h s
        λ h' s' grown. v6_from-enough f k h' s' (omega (arith, enough, grown))

-- Eight rounds are enough for every text, behind an ellipsis or not.
v6_from-eight :
    (k : ℕ) (s : String)
    → (v6_from (8 + k) no_ellipsis s ≡ v6_from 8 no_ellipsis s)
      × (v6_from (8 + k) (some [], []) s ≡ v6_from 8 (some [], []) s)
v6_from-eight k s = (
  v6_from-enough 8 k no_ellipsis s (omega arith),
  v6_from-enough 8 k (some [], []) s (omega arith),
)
