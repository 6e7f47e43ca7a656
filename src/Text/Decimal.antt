-- ===== src/Text/Decimal.antt =====
-- `strconv`: printing an int32 and parsing it again.
use Prim.Native.String.{◌∷◌}
use native.Mathlib.Nat.{pow-suc}
use machinecfg.Prelude.{
  ℕ, zero, suc, ◌+◌, ◌-◌, ◌*◌, ◌/◌, ◌%◌, ◌^◌, ◌≤◌, ◌<◌, code, String, ◌≡◌, refl, ap, ◌∙◌, true, inl,
  inr, arith, ltb, Bool-cases, false, ◌≢◌, sym, eq_iff, ◌==◌, string_eq,
}
use machinecfg.Effect.{Error, good, bad}
use machinecfg.Text.{
  int32_mod, int32_sign, digit, print_digits, itoa, number, parse_digits, parse_uint, signed,
  parse_signed, parse_int32,
}

-- The ten digits, one by one.
code-digit : (d : ℕ) → d < 10 → code (digit d) ≡ 48 + d
unfolding digit
code-digit zero h = refl
code-digit (suc zero) h = refl
code-digit (suc (suc zero)) h = refl
code-digit (suc (suc (suc zero))) h = refl
code-digit (suc (suc (suc (suc zero)))) h = refl
code-digit (suc (suc (suc (suc (suc zero))))) h = refl
code-digit (suc (suc (suc (suc (suc (suc zero)))))) h = refl
code-digit (suc (suc (suc (suc (suc (suc (suc zero))))))) h = refl
code-digit (suc (suc (suc (suc (suc (suc (suc (suc zero)))))))) h = refl
code-digit (suc (suc (suc (suc (suc (suc (suc (suc (suc zero))))))))) h = refl
code-digit (suc (suc (suc (suc (suc (suc (suc (suc (suc (suc d)))))))))) h = absurd (omega arith)

-- One round of the parser's loop at a digit.
parse_digits-digit :
    (n d : ℕ) (rest : String)
    → d < 10
    → n * 10 + d < int32_mod
    → parse_digits n (digit d ∷ rest) ≡ parse_digits (n * 10 + d) rest
unfolding parse_digits
parse_digits-digit n d rest h k =
    rw (code-digit d h) (rw (let e : (48 + d) - 48 ≡ d = omega arith in e) (ground arith))

fewer : (f n : ℕ) → n < 10 ^ suc f → n / 10 < 10 ^ f
fewer f n h = let e = pow-suc 10 f in omega arith

-- The parser reads the digits that the printer put in front of `rest`.
parse_digits-print_digits :
    (f n : ℕ) (rest : String)
    → n < 10 ^ f
    → n < int32_mod
    → parse_digits 0 (print_digits f n rest) ≡ parse_digits n rest
unfolding print_digits
parse_digits-print_digits zero n rest h k = ap (λ m. parse_digits m rest) (omega arith)
parse_digits-print_digits (suc f) n rest h k = elim (Bool-cases (ltb n 10)) [
  | inl small ↦ rw small (
      parse_digits-digit 0 n rest (ground arith) (omega arith)
      ∙ ap (λ m. parse_digits m rest) (omega arith))
  | inr large ↦ rw large (
      parse_digits-print_digits f (n / 10) (digit (n % 10) ∷ rest) (fewer f n h) (omega arith)
      ∙ parse_digits-digit (n / 10) (n % 10) rest (omega arith) (omega arith)
      ∙ ap (λ m. parse_digits m rest) (omega arith))
]

StartsWithDigit : String → Type 0
StartsWithDigit s = (d : ℕ) × (t : String) × (d < 10) × (s ≡ digit d ∷ t)

print_digits-StartsWithDigit :
    (f n : ℕ) (rest : String) → StartsWithDigit rest → StartsWithDigit (print_digits f n rest)
unfolding print_digits
print_digits-StartsWithDigit zero n rest h = h
print_digits-StartsWithDigit (suc f) n rest h = elim (Bool-cases (ltb n 10)) [
  | inl small ↦ rw small (unfold StartsWithDigit in (n, rest, ground arith, refl))
  | inr large ↦ rw large (
      print_digits-StartsWithDigit f (n / 10) (digit (n % 10) ∷ rest)
        (unfold StartsWithDigit in (n % 10, rest, omega arith, refl)))
]

print_digits-StartsWithDigit_first : (f n : ℕ) → StartsWithDigit (print_digits (suc f) n "")
unfolding print_digits
print_digits-StartsWithDigit_first f n = elim (Bool-cases (ltb n 10)) [
  | inl small ↦ rw small (unfold StartsWithDigit in (n, "", ground arith, refl))
  | inr large ↦ rw large (
      print_digits-StartsWithDigit f (n / 10) (digit (n % 10) ∷ "")
        (unfold StartsWithDigit in (n % 10, "", omega arith, refl)))
]

parse_uint-StartsWithDigit : (s : String) → StartsWithDigit s → parse_uint s ≡ parse_digits 0 s
unfolding StartsWithDigit parse_uint
parse_uint-StartsWithDigit s (d, t, h, e) = rw e

parse_signed-StartsWithDigit :
    (s : String) → StartsWithDigit s → parse_signed s ≡ signed false (parse_digits 0 s)
unfolding StartsWithDigit parse_signed
parse_signed-StartsWithDigit s (d, t, h, e) = rw e (ground (arith, code-digit d h))

parse_uint-print_digits : (n : ℕ) → n < int32_mod → parse_uint (print_digits 10 n "") ≡ number n
parse_uint-print_digits n h =
    parse_uint-StartsWithDigit _ (print_digits-StartsWithDigit_first 9 n)
    ∙ parse_digits-print_digits 10 n "" (omega arith) h
    ∙ (unfold parse_digits in refl)

signed-neg :
    (n : ℕ) → n < int32_mod → int32_sign ≤ n → signed true (number (int32_mod - n)) ≡ number n
unfolding signed
signed-neg n h k = ground arith

parse_signed-dash : (s : String) → parse_signed ("-" ∷ s) ≡ signed true (parse_uint s)
unfolding parse_signed
parse_signed-dash s = refl

parse_signed-itoa : (n : ℕ) → n < int32_mod → parse_signed (itoa n) ≡ number n
unfolding itoa
parse_signed-itoa n h = elim (Bool-cases (ltb n int32_sign)) [
  | inl pos ↦ rw pos (
      parse_signed-StartsWithDigit _ (print_digits-StartsWithDigit_first 9 n)
      ∙ ap (signed false) (parse_digits-print_digits 10 n "" (omega arith) h)
      ∙ (unfold parse_digits signed in rw pos))
  | inr neg ↦ rw neg (
      parse_signed-dash _
      ∙ ap (signed true) (parse_uint-print_digits (int32_mod - n) (ground arith))
      ∙ signed-neg n h (ground arith))
]

-- Printing an int32 in decimal and parsing the text as an int32 gives the number back.
pub parse_int32-itoa : (n : ℕ) → n < int32_mod → parse_int32 (itoa n) ≡ good n
unfolding parse_int32
parse_int32-itoa n h = rw (parse_signed-itoa n h, parse_int32)

pub itoa-NonEmpty : (n : ℕ) → n < int32_mod → (itoa n == "") ≡ false
unfolding parse_int32
itoa-NonEmpty n h = elim (Bool-cases (itoa n == "")) [
  | inr e ↦ e
  | inl e ↦
      absurd (bad≢good (sym (ap parse_int32 ((eq_iff (itoa n) "").0 e)) ∙ parse_int32-itoa n h))
]
  where
    bad≢good : {e : Error} → bad e ≢ good n
    bad≢good p = cc p
