-- ===== src/Text/Number.antt =====
-- Python's `int(s, base)` on ASCII digits, `hex` and the format `02x`.
pub mod Digits
pub mod Print
use finsy.Prelude.{ℕ, zero, suc, ◌+◌, ◌-◌, ◌*◌, ◌/◌, ◌%◌, Bool, true, false, ◌&&◌, ◌||◌, not}
use finsy.Prelude.{Option, none, some, [], ◌∷◌, Str, leb, ltb, ◌==◌, if◌then◌else◌}
use finsy.Prelude.{Result, ok, err, value_error}
use finsy.Prelude.Int.{ℤ, pos, negsuc}
use finsy.Text.{is_space, strip_by}

-- `int` skips the spaces of C and those beyond ASCII.
unfoldable pub is_int_space : ℕ → Bool
unfolding is_space
is_int_space c = is_space c && not (leb 28 c && leb c 31)

unfoldable pub digit_value : ℕ → ℕ
digit_value c =
    if leb b'0' c && leb c b'9'
    then c - 48
    else if leb b'a' c && leb c b'z'
    then c - 87
    else if leb b'A' c && leb c b'Z'
    then c - 55
    else 36

-- One character after the number so far: an underscore must stand between two digits.
digit_step : ℕ → ℕ → ℕ → Bool → Option (ℕ × Bool)
unfolding digit_value
digit_step base c acc gap =
    if c == b'_'
    then (if gap then none else some (acc, true))
    else if ltb (digit_value c) base
    then some (acc * base + digit_value c, false)
    else none

unfoldable pub digits_after : ℕ → Str → ℕ → Bool → Option ℕ
unfolding digit_step
digits_after base [] acc gap = if gap then none else some acc
digits_after base (c ∷ s) acc gap = elim (digit_step base c acc gap) [
  | none ↦ none
  | some (acc', gap') ↦ digits_after base s acc' gap'
]

-- At least one digit.
abbrev digits_of : ℕ → Str → Option ℕ
digits_of base s = digits_after base s 0 true

-- One underscore may follow a prefix such as `0x`.
abbrev skip_underscore : Str → Str
skip_underscore [] = []
skip_underscore (c ∷ s) = if c == b'_' then s else c ∷ s

-- A number that starts with 0 and has no prefix is 0 itself.
abbrev only_zero : Option ℕ → Option ℕ
only_zero none = none
only_zero (some n) = if n == 0 then some 0 else none

-- The letter of a prefix, and its base.
prefix_base : ℕ → ℕ
prefix_base c =
    if c == b'x' || c == b'X'
    then 16
    else if c == b'o' || c == b'O'
    then 8
    else if c == b'b' || c == b'B'
    then 2
    else 0

unsigned_from : ℕ → ℕ → ℕ → Str → Option ℕ
unfolding prefix_base digits_after
unsigned_from base a c s =
    if a == b'0' && ltb 0 (prefix_base c) && (base == 0 || base == prefix_base c)
    then digits_of (prefix_base c) (skip_underscore s)
    else if base == 0 && a == b'0'
    then only_zero (digits_of 10 (a ∷ c ∷ s))
    else digits_of (if base == 0 then 10 else base) (a ∷ c ∷ s)

unsigned : ℕ → Str → Option ℕ
unfolding unsigned_from
unsigned base [] = none
unsigned base (a ∷ []) = digits_of (if base == 0 then 10 else base) (a ∷ [])
unsigned base (a ∷ c ∷ s) = unsigned_from base a c s

abbrev pub negated : ℕ → ℤ
negated zero = pos 0
negated (suc n) = negsuc n

unfoldable pub signed : ℕ → Str → Option ℤ
unfolding unsigned
signed base [] = none
signed base (c ∷ s) =
    if c == b'-'
    then elim (unsigned base s) [ none ↦ none | some n ↦ some (negated n) ]
    else elim (unsigned base (if c == b'+' then s else c ∷ s)) [
      | none ↦ none
      | some n ↦ some (pos n)
    ]

-- int(s, base)
unfoldable pub parse_int : ℕ → Str → Result ℤ
parse_int base s = elim (signed base (strip_by is_int_space s)) [
  | none ↦ err value_error
  | some n ↦ ok n
]

-- One lower-case hexadecimal digit.
unfoldable pub hex_digit : ℕ → ℕ
hex_digit d = if ltb d 10 then d + 48 else d + 87

-- The digits of `n` in front of `s`; the fuel `n` is enough, as each round divides by the base.
pub print_digits : ℕ → ℕ → ℕ → Str → Str
unfolding hex_digit
print_digits zero base n s = s
print_digits (suc fuel) base n s =
    let rest = print_digits fuel base (n / base) (hex_digit (n % base) ∷ s) in
    if n == 0 then s else rest

-- str(n), of a number that is not negative
unfoldable pub decimal : ℕ → Str
unfolding print_digits
decimal n = if n == 0 then b'0' ∷ [] else print_digits n 10 n []

-- hex(n), of a number that is not negative
unfoldable pub hex : ℕ → Str
unfolding print_digits
hex n = b'0' ∷ b'x' ∷ (if n == 0 then b'0' ∷ [] else print_digits n 16 n [])

-- f"{octet:02x}", below 256
unfoldable pub hex02 : ℕ → Str
unfolding hex_digit
hex02 o = hex_digit (o / 16) ∷ hex_digit (o % 16) ∷ []
