-- ===== src/Net.antt =====
-- Go's `net` and `net/netip`, as far as the program calls them: `net.ParseIP`, `net.ParseCIDR` and
-- the text of a network mask. An address is the list of its bytes.
mod Tests
mod Rounds
use Prim.Native.String.{[], ◌∷◌, char_at}
use machinecfg.Prelude.{
  ℕ, zero, suc, ◌+◌, ◌-◌, ◌*◌, ◌/◌, ◌%◌, ◌^◌, code, String, ◌<>◌, Bool, true, false, ◌&&◌, ◌||◌,
  Option, none, some, List, [], ◌∷◌, ◌++◌, length, ltb, leb, ◌==◌, nat_eq, string_eq, if◌then◌else◌,
}
use machinecfg.Text.{contains, before, join, print_digits, digit}

is_digit : ℕ → Bool
is_digit c = leb 48 c && leb c 57

-- `parseIPv4Fields`: the fields read so far, the value of the field that is being read and the
-- number of its digits.
unfoldable pub v4_from : List ℕ → ℕ → ℕ → String → Option (List ℕ)
unfolding is_digit
v4_from done val digits [] =
    if digits == 0 then none else if length done == 3 then some (done ++ val ∷ []) else none
v4_from done val digits (c ∷ s) =
    let val1 = val * 10 + (code c - 48) in
    let longer = v4_from done val1 (digits + 1) s in
    let closed = v4_from (done ++ val ∷ []) 0 0 s in
    if is_digit (code c)
    then (if (digits == 1 && val == 0) || ltb 255 val1 then none else longer)
    else if code c == b'.'
    then (if digits == 0 || length done == 3 then none else closed)
    else none

unfoldable pub parse_v4 : String → Option (List ℕ)
unfolding v4_from
parse_v4 s = v4_from [] 0 0 s

hex_value : ℕ → Option ℕ
unfolding is_digit
hex_value c =
    if is_digit c
    then some (c - 48)
    else if leb b'a' c && leb c b'f'
    then some (c - b'a' + 10)
    else if leb b'A' c && leb c b'F'
    then some (c - b'A' + 10)
    else none

-- A field of up to four hexadecimal digits: its value, its number of digits and the rest.
hex_field : ℕ → ℕ → String → Option (ℕ × ℕ × String)
unfolding hex_value
hex_field acc off [] = some (acc, off, "")
hex_field acc off (c ∷ s) = elim (hex_value (code c)) [
  | none ↦ some (acc, off, c ∷ s)
  | some d ↦ let rest = hex_field (acc * 16 + d) (off + 1) s in if leb 4 off then none else rest
]

zeros : ℕ → List ℕ
zeros zero = []
zeros (suc n) = 0 ∷ zeros n

-- The bytes in front of the ellipsis, and those behind it.
abbrev Halves : Type 0
Halves = Option (List ℕ) × List ℕ

-- The end of `parseIPv6`: an ellipsis stands for at least one field of zeros.
expand : Halves → Option (List ℕ)
unfolding zeros
expand (none, bytes) = if length bytes == 16 then some bytes else none
expand (some front, bytes) =
    let n = length front + length bytes in
    if ltb n 16 then some (front ++ zeros (16 - n) ++ bytes) else none

abbrev bytes_read : Halves → ℕ
bytes_read (none, bytes) = length bytes
bytes_read (some front, bytes) = length front + length bytes

abbrev add_bytes : Halves → List ℕ → Halves
add_bytes (e, bytes) more = (e, bytes ++ more)

-- The embedded IPv4 address at the end of an IPv6 address.
embedded : Halves → String → Option (List ℕ)
unfolding parse_v4 expand
embedded (none, bytes) s =
    if length bytes == 12
    then elim (parse_v4 s) [ none ↦ none | some four ↦ expand (none, bytes ++ four) ]
    else none
embedded (some front, bytes) s =
    if leb (length front + length bytes + 4) 16
    then elim (parse_v4 s) [ none ↦ none | some four ↦ expand (some front, bytes ++ four) ]
    else none

-- What follows a field of an IPv6 address: the end, or a colon and the next field.
pub data After : Type 0 where
  finished : Halves → After
  field : Halves → String → After
  invalid : After

after_colon : Halves → String → After
after_colon h [] = invalid
after_colon (none, bytes) (c ∷ s) =
    if code c == b':'
    then (if s == "" then finished (some bytes, []) else field (some bytes, []) s)
    else field (none, bytes) (c ∷ s)
after_colon (some front, bytes) (c ∷ s) =
    if code c == b':' then invalid else field (some front, bytes) (c ∷ s)

after_field : Halves → String → After
unfolding after_colon
after_field h [] = finished h
after_field h (c ∷ s) = if code c == b':' then after_colon h s else invalid

starts_dotted : String → Bool
starts_dotted [] = false
starts_dotted (c ∷ s) = code c == b'.'

-- The loop of `parseIPv6`, one field of two bytes at a time: eight rounds at most.
unfoldable pub v6_from : ℕ → Halves → String → Option (List ℕ)
unfolding hex_field embedded after_field starts_dotted expand
v6_from zero h s = none
v6_from (suc f) h s = if leb 16 (bytes_read h) then none else elim (hex_field 0 0 s) [
  | none ↦ none
  | some (acc, off, rest) ↦
      if off == 0
      then none
      else if starts_dotted rest
      then embedded h s
      else elim (after_field (add_bytes h (acc / 256 ∷ acc % 256 ∷ [])) rest) [
        | finished h' ↦ expand h'
        | field h' s' ↦ v6_from f h' s'
        | invalid ↦ none
      ]
]

abbrev no_ellipsis : Halves
no_ellipsis = (none, [])

-- `parseIPv6` of a text with no zone.
unfoldable pub parse_v6 : String → Option (List ℕ)
unfolding v6_from zeros
parse_v6 (c ∷ d ∷ s) =
    if code c == b':' && code d == b':'
    then (if s == "" then some (zeros 16) else v6_from 8 (some [], []) s)
    else v6_from 8 no_ellipsis (c ∷ d ∷ s)
parse_v6 s = v6_from 8 no_ellipsis s

pub data Family : Type 0 where
  v4 v6 unknown : Family

-- The scan of `netip.ParseAddr` for the first '.', ':' or '%'.
family : String → Family
family [] = unknown
family (c ∷ s) =
    if code c == b'.'
    then v4
    else if code c == b':'
    then v6
    else if code c == b'%'
    then unknown
    else family s

-- `net.ParseIP`: the bytes of the address, none for nil. A text with a zone is refused.
unfoldable pub parse_ip : String → Option (List ℕ)
unfolding parse_v4 parse_v6 family contains
parse_ip s = elim (family s) [
  | v4 ↦ parse_v4 s
  | v6 ↦ if contains b'%' s then none else parse_v6 s
  | unknown ↦ none
]

-- `net.CIDRMask(ones, 8 * size)`
cidr_mask : ℕ → ℕ → List ℕ
cidr_mask zero ones = []
cidr_mask (suc size) ones =
    (if leb 8 ones then 255 else 255 - 255 / 2 ^ ones) ∷ cidr_mask size (ones - 8)

-- `dtoi` on a whole text: the number in decimal, none if it is too big or no number.
dtoi_from : ℕ → String → Option ℕ
unfolding is_digit
dtoi_from n [] = some n
dtoi_from n (c ∷ s) =
    let n1 = n * 10 + (code c - 48) in
    let rest = dtoi_from n1 s in
    if is_digit (code c) then (if leb 0xFFFFFF n1 then none else rest) else none

dtoi : String → Option ℕ
unfolding dtoi_from
dtoi s = if s == "" then none else dtoi_from 0 s

-- The text behind the first separator.
after : ℕ → String → Option String
after sep [] = none
after sep (c ∷ s) = let rest = after sep s in if code c == sep then some s else rest

prefix_mask : List ℕ → ℕ → Option (List ℕ)
unfolding cidr_mask
prefix_mask bytes ones =
    if leb ones (8 * length bytes) then some (cidr_mask (length bytes) ones) else none

infixl 10 ◌>>=◌
abbrev ◌>>=◌ : {A B : Type 0} → Option A → (A → Option B) → Option B
none >>= f = none
some a >>= f = f a

-- `net.ParseCIDR`: the bytes of the network's mask.
unfoldable pub parse_cidr_mask : String → Option (List ℕ)
unfolding prefix_mask parse_ip dtoi after before
parse_cidr_mask s = do
  bits ← after b'/' s
  bytes ← parse_ip (before b'/' s)
  ones ← dtoi bits
  prefix_mask bytes ones

hex_digit : ℕ → String
hex_digit d = char_at "0123456789abcdef" d ∷ ""

-- A field of a mask that is not zero has four digits.
hex_group : ℕ → String
unfolding hex_digit
hex_group g =
    hex_digit (g / 4096)
    <> hex_digit (g / 256 % 16)
    <> hex_digit (g / 16 % 16)
    <> hex_digit (g % 16)

-- The text of an IPv6 mask, whose zero fields are the last ones: two or more are "::".
mask_groups : List ℕ → String
unfolding hex_group
mask_groups (a ∷ b ∷ []) = if a + b == 0 then "0" else hex_group (a * 256 + b)
mask_groups (a ∷ b ∷ c ∷ d ∷ rest) =
    let tail = mask_groups (c ∷ d ∷ rest) in
    if a + b == 0
    then "::"
    else if c + d == 0 && ltb 0 (length rest)
    then hex_group (a * 256 + b) <> "::"
    else hex_group (a * 256 + b) <> ":" <> tail
mask_groups bytes = ""

dotted : List ℕ → List String
dotted [] = []
dotted (b ∷ bytes) = print_digits 3 b "" ∷ dotted bytes

-- `net.IP(mask).String()`
unfoldable pub mask_text : List ℕ → String
unfolding mask_groups dotted print_digits join digit
mask_text mask = if length mask == 4 then join "." (dotted mask) else mask_groups mask
