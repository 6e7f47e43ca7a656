-- ===== src/Text.antt =====
-- Go's `strings` and `strconv`, as far as the program calls them. A text is walked by character;
-- an int32 is its bit pattern, a number below 2 ^ 32.
pub mod Decimal
use Prim.Native.String.{[], ◌∷◌, char_at}
use machinecfg.Prelude.{
  ℕ, zero, suc, ◌+◌, ◌-◌, ◌*◌, ◌/◌, ◌%◌, ◌^◌, Char, code, String, ◌<>◌, Bool, true, false, ◌&&◌,
  ◌||◌, List, [], ◌∷◌, ltb, leb, ◌==◌, nat_eq, string_eq, if◌then◌else◌,
}
use machinecfg.Effect.{Reply, good, bad, Error, error}

-- `unicode.IsSpace`
unfoldable pub is_space : ℕ → Bool
is_space c =
    (leb 9 c && leb c 13)
    || c == 32
    || c == 0x85
    || c == 0xA0
    || c == 0x1680
    || (leb 0x2000 c && leb c 0x200A)
    || c == 0x2028
    || c == 0x2029
    || c == 0x202F
    || c == 0x205F
    || c == 0x3000

-- A character more in the first part.
abbrev push_front : Char → List String → List String
push_front c [] = (c ∷ []) ∷ []
push_front c (p ∷ ps) = (c ∷ p) ∷ ps

-- `strings.Split(s, sep)` at a separator of one character
unfoldable pub split : ℕ → String → List String
split sep [] = "" ∷ []
split sep (c ∷ s) = let rest = split sep s in if code c == sep then "" ∷ rest else push_front c rest

-- `strings.SplitN(s, sep, 2)[0]` and `strings.Split(s, sep)[0]`
unfoldable pub before : ℕ → String → String
before sep [] = ""
before sep (c ∷ s) = let rest = before sep s in if code c == sep then "" else c ∷ rest

-- `strings.Contains(s, sep)`
unfoldable pub contains : ℕ → String → Bool
contains sep [] = false
contains sep (c ∷ s) = code c == sep || contains sep s

unfoldable pub trim_left : String → String
unfolding is_space
trim_left [] = ""
trim_left (c ∷ s) = let rest = trim_left s in if is_space (code c) then rest else c ∷ s

-- The text without the characters at its end that pass the test.
unfoldable pub trim_right : (ℕ → Bool) → String → String
trim_right p [] = ""
trim_right p (c ∷ s) =
    let rest = trim_right p s in if rest == "" && p (code c) then "" else c ∷ rest

-- `strings.TrimSpace`
unfoldable pub trim_space : String → String
unfolding trim_left trim_right is_space
trim_space s = trim_right is_space (trim_left s)

-- The loop of `strings.Fields`: the word that is being read, and the words after it.
fields_from : String → String → List String
fields_from word [] = if word == "" then [] else word ∷ []
fields_from word (c ∷ s) =
    let closed = fields_from "" s in
    let longer = fields_from (word <> (c ∷ [])) s in
    if is_space (code c) then (if word == "" then closed else word ∷ closed) else longer

-- `strings.Fields`
unfoldable pub fields : String → List String
unfolding fields_from is_space
fields s = fields_from "" s

-- `strings.ToLower` on ASCII; other characters stay as they are.
abbrev lower_char : Char → Char
lower_char c =
    if leb b'A' (code c) && leb (code c) b'Z'
    then char_at "abcdefghijklmnopqrstuvwxyz" (code c - b'A')
    else c

unfoldable pub to_lower : String → String
to_lower [] = ""
to_lower (c ∷ s) = lower_char c ∷ to_lower s

-- `strings.Join`
unfoldable pub join : String → List String → String
join sep [] = ""
join sep (p ∷ []) = p
join sep (p ∷ q ∷ ps) = p <> sep <> join sep (q ∷ ps)

abbrev pub int32_mod : ℕ
int32_mod = 2 ^ 32

-- The least bit pattern of a negative int32.
abbrev pub int32_sign : ℕ
int32_sign = 2 ^ 31

unfoldable pub digit : ℕ → Char
digit d = char_at "0123456789" d

-- The decimal digits of `n` in front of `rest`; the fuel is the number of digits at most.
unfoldable pub print_digits : ℕ → ℕ → String → String
print_digits zero n rest = rest
print_digits (suc f) n rest =
    let more = print_digits f (n / 10) (digit (n % 10) ∷ rest) in
    if ltb n 10 then digit n ∷ rest else more

-- `strconv.Itoa(int(n))` of an int32: ten digits are enough.
unfoldable pub itoa : ℕ → String
itoa n = if ltb n int32_sign then print_digits 10 n "" else "-" ∷ print_digits 10 (int32_mod - n) ""

pub data Parsed : Type 0 where
  number : ℕ → Parsed
  syntax range : Parsed

-- The loop of `strconv.ParseUint(s, 10, 32)`.
unfoldable pub parse_digits : ℕ → String → Parsed
parse_digits n [] = number n
parse_digits n (c ∷ s) =
    let n1 = n * 10 + (code c - 48) in
    let rest = parse_digits n1 s in
    if leb 48 (code c) && leb (code c) 57
    then (if ltb (int32_mod - 1) n1 then range else rest)
    else syntax

unfoldable pub parse_uint : String → Parsed
unfolding parse_digits
parse_uint [] = syntax
parse_uint (c ∷ s) = parse_digits 0 (c ∷ s)

-- The range tests of `strconv.ParseInt` after the sign, and the conversion to int32.
unfoldable pub signed : Bool → Parsed → Parsed
signed false (number n) = if ltb n int32_sign then number n else range
signed true (number n) = if leb n int32_sign then number ((int32_mod - n) % int32_mod) else range
signed neg syntax = syntax
signed neg range = range

unfoldable pub parse_signed : String → Parsed
unfolding parse_uint signed
parse_signed [] = syntax
parse_signed (c ∷ s) =
    if code c == b'-'
    then signed true (parse_uint s)
    else if code c == b'+'
    then signed false (parse_uint s)
    else signed false (parse_uint (c ∷ s))

-- `%q`, for a text with nothing to escape
abbrev pub quoted : String → String
quoted s = "\"" <> s <> "\""

-- `strconv.ParseInt(s, 10, 32)` and the conversion of its result by `int32`
unfoldable pub parse_int32 : String → Reply ℕ
unfolding parse_signed
parse_int32 s = elim (parse_signed s) [
  | number n ↦ good n
  | syntax ↦ bad (error ("strconv.ParseInt: parsing " <> quoted s <> ": invalid syntax"))
  | range ↦ bad (error ("strconv.ParseInt: parsing " <> quoted s <> ": value out of range"))
]
