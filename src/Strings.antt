-- ===== src/Strings.antt =====
-- kernel/string.c. A string is the list of the bytes in front of its closing 0; a pointer into it is
-- the list from there on, so that the byte under it is `peek`. The plain memory routines work on
-- memory, a function of the address.
pub mod Numbers
pub mod Parse
pub mod Compare
pub mod Copy
mod Tests
use nos.Prelude.{
  ℕ, zero, suc, ◌+◌, ◌-◌, ◌*◌, ◌/◌, ◌%◌, ◌^◌, ltb, leb, List, [], ◌∷◌, ◌++◌, Bool, true, false, not,
  ◌&&◌, ◌||◌, if◌then◌else◌, ◌==◌, ℤ, pos, minus_one, sub32, length, drop, update, Option, none,
  some,
}

abbrev pub peek : List ℕ → ℕ
peek [] = 0
peek (c ∷ s) = c

unfoldable pub isupper : ℕ → Bool
isupper c = leb b'A' c && leb c b'Z'

unfoldable pub isalpha : ℕ → Bool
isalpha c = (leb b'A' c && leb c b'Z') || (leb b'a' c && leb c b'z')

-- '\12' is the line feed once more.
unfoldable pub isspace : ℕ → Bool
isspace c = c == 32 || (c == 9 || (c == 10 || c == 10))

unfoldable pub isdigit : ℕ → Bool
isdigit c = leb b'0' c && leb c b'9'

-- The value of a byte in the loop of `strtol`; `none` breaks.
unfoldable pub digit : ℕ → ℕ → Option ℕ
digit base c =
    let d =
      if isdigit c
      then some (c - b'0')
      else if isalpha c
      then some (c - (if isupper c then b'A' - 10 else b'a' - 10))
      else none in
    elim d [ none ↦ none | some v ↦ if leb base v then none else some v ]

-- `any`: 0, 1 or -1.
pub data Any : Type 0 where
  nothing digits overflow : Any

-- What the loop leaves: `acc`, `any` and the place of the byte that ended it.
pub record Scan : Type 0 where
  pub acc : ℕ
  pub any : Any
  pub at : List ℕ

abbrev pub add_digit : ℕ → ℕ → ℕ → ℕ → ℕ × Any → ℕ × Any
add_digit base cutoff cutlim c (acc, overflow) = (acc, overflow)
add_digit base cutoff cutlim c (acc, any) =
    if ltb cutoff acc || (acc == cutoff && ltb cutlim c)
    then (acc, overflow)
    else ((acc * base % 2 ^ 32 + c) % 2 ^ 32, digits)

unfoldable pub scan_loop : ℕ → ℕ → ℕ → List ℕ → ℕ × Any → Scan
scan_loop base cutoff cutlim [] (acc, any) = record { acc = acc; any = any; at = [] }
scan_loop base cutoff cutlim (c ∷ s) (acc, any) = elim (digit base c) [
  | none ↦ record { acc = acc; any = any; at = c ∷ s }
  | some v ↦ scan_loop base cutoff cutlim s (add_digit base cutoff cutlim v (acc, any))
]

-- `do c = *s++; while (isspace(c))`
unfoldable pub skip_space : List ℕ → List ℕ
skip_space [] = []
skip_space (c ∷ s) = if isspace c then skip_space s else c ∷ s

-- The sign: whether it is a minus, and the place behind it.
unfoldable pub take_sign : List ℕ → Bool × List ℕ
take_sign s =
    if peek s == b'-'
    then (true, drop 1 s)
    else if peek s == b'+'
    then (false, drop 1 s)
    else (false, s)

-- The prefix: the base and the place behind it.
unfoldable pub take_prefix : ℕ → List ℕ → ℕ × List ℕ
take_prefix base s =
    let second = peek (drop 1 s) in
    if (base == 0 || base == 16) && (peek s == b'0' && (second == b'x' || second == b'X'))
    then (16, drop 2 s)
    else if (base == 0 || base == 2) && (peek s == b'0' && (second == b'b' || second == b'B'))
    then (2, drop 2 s)
    else if base == 0
    then ((if peek s == b'0' then 8 else 10), s)
    else (base, s)

-- `any ? s - 1 : nptr`, as a place in the string.
abbrev pub end_of : List ℕ → Scan → List ℕ
end_of nptr r = elim r.any [ nothing ↦ nptr | _ ↦ r.at ]

-- `LONG_MAX`, `LONG_MIN` and `ULONG_MAX` as bit patterns
abbrev pub long_max : ℕ
long_max = 2 ^ 31 - 1

abbrev pub long_min : ℕ
long_min = 2 ^ 31

abbrev pub ulong_max : ℕ
ulong_max = 2 ^ 32 - 1

abbrev pub is_overflow : Any → Bool
is_overflow overflow = true
is_overflow _ = false

-- The bit pattern of the result, and `*endptr`.
unfoldable pub strtol : List ℕ → ℕ → ℕ × List ℕ
strtol nptr base0 =
    let (neg, s) = take_sign (skip_space nptr) in
    let (base, start) = take_prefix base0 s in
    let cutoff = if neg then long_min else long_max in
    let r = scan_loop base (cutoff / base) (cutoff % base) start (0, nothing) in
    (
      (if is_overflow r.any
          then (if neg then long_min else long_max)
          else if neg
          then sub32 0 r.acc
          else r.acc),
      end_of nptr r,
    )

unfoldable pub strtoul : List ℕ → ℕ → ℕ × List ℕ
strtoul nptr base0 =
    let (neg, s) = take_sign (skip_space nptr) in
    let (base, start) = take_prefix base0 s in
    let r = scan_loop base (ulong_max / base) (ulong_max % base) start (0, nothing) in
    ((if is_overflow r.any then ulong_max else if neg then sub32 0 r.acc else r.acc), end_of nptr r)

unfoldable pub strlen : List ℕ → ℕ
strlen [] = 0
strlen (c ∷ s) = strlen s + 1

unfoldable pub strcmp : List ℕ → List ℕ → ℤ
strcmp [] [] = pos 0
strcmp [] (d ∷ t) = minus_one
strcmp (c ∷ s) [] = pos 1
strcmp (c ∷ s) (d ∷ t) =
    let rest = strcmp s t in if c == d then rest else if ltb c d then minus_one else pos 1

unfoldable pub memcpy : (ℕ → ℕ) → ℕ → ℕ → ℕ → (ℕ → ℕ)
memcpy mem dst src zero = mem
memcpy mem dst src (suc n) = memcpy (update mem dst (mem src)) (dst + 1) (src + 1) n

unfoldable pub memset : (ℕ → ℕ) → ℕ → ℕ → ℕ → (ℕ → ℕ)
memset mem d c zero = mem
memset mem d c (suc n) = memset (update mem d (c % 256)) (d + 1) c n

unfoldable pub memcmp : (ℕ → ℕ) → ℕ → ℕ → ℕ → ℤ
memcmp mem p1 p2 zero = pos 0
memcmp mem p1 p2 (suc n) =
    let rest = memcmp mem (p1 + 1) (p2 + 1) n in
    if mem p1 == mem p2 then rest else if ltb (mem p1) (mem p2) then minus_one else pos 1

-- The n bytes that `strncpy` writes.
unfoldable pub strncpy : List ℕ → ℕ → List ℕ
strncpy s zero = []
strncpy [] (suc n) = 0 ∷ strncpy [] n
strncpy (c ∷ s) (suc n) = c ∷ strncpy s n
