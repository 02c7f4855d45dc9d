-- ===== src/Text/Number/Print.antt =====
-- What `hex` and `decimal` print, `int` reads.
use finsy.Prelude.{ℕ, ◌≤◌, ◌<◌, ◌≡◌, refl, ap, ◌∙◌, arith}
use finsy.Prelude.{[], ◌∷◌, Str, drop, All, All-append, Bool, false, ok, some, ◌==◌}
use finsy.Prelude.{inl, inr, Bool-cases, ==_iff, if◌then◌else◌}
use finsy.Prelude.Int.{ℤ, pos}
use mathlib.Core.List.{reverse, reverse-append, reverse-reverse}
use finsy.Text.{contains, strip_left, strip_by, strip, is_space}
use finsy.Text.Number.{
  parse_int, digits_after, digits_of, skip_underscore, hex_digit, print_digits, decimal, hex,
  signed, unsigned, is_int_space,
}
use finsy.Text.Number.Digits.{IsDigit, digits_after-print_digits, print_digits-IsDigit}

-- A text whose characters all fail a test is not changed by stripping what passes it.
strip_left-none : (p : ℕ → Bool) (s : Str) → All (λ c. p c ≡ false) s → strip_left p s ≡ s
unfolding strip_left
strip_left-none p [] h = refl
strip_left-none p (c ∷ s) (e, h) = rw e refl

All-reverse : (P : ℕ → Type 0) (s : Str) → All P s → All P (reverse s)
All-reverse P [] h = tt
All-reverse P (c ∷ s) (p, h) =
    rw (reverse-append (c ∷ []) s) (All-append P (reverse s) (c ∷ []) (All-reverse P s h) (p, tt))

pub strip_by-none : (p : ℕ → Bool) (s : Str) → All (λ c. p c ≡ false) s → strip_by p s ≡ s
unfolding strip_by
strip_by-none p s h =
    rw
      (
        strip_left-none p s h,
        strip_left-none p (reverse s) (All-reverse (λ c. p c ≡ false) s h),
        reverse-reverse s,
      )
      refl

All-mono : (P Q : ℕ → Type 0) (s : Str) → ((c : ℕ) → P c → Q c) → All P s → All Q s
All-mono P Q [] f h = tt
All-mono P Q (c ∷ s) f (p, h) = (f c p, All-mono P Q s f h)

hex_digit-ne-space : (d : ℕ) → d < 16 → is_space (hex_digit d) ≡ false
unfolding is_space hex_digit
hex_digit-ne-space d h = ground arith

-- What is a digit or the letter x.
abbrev IsPrinted : ℕ → Type 0
IsPrinted c = is_space c ≡ false

IsPrinted-digit : (c : ℕ) → IsDigit c → IsPrinted c
IsPrinted-digit c (d, h, e) = ap is_space e ∙ hex_digit-ne-space d h

hex_tail-IsDigit : (n : ℕ) → All IsDigit (if n == 0 then b'0' ∷ [] else print_digits n 16 n [])
hex_tail-IsDigit n = elim (Bool-cases (n == 0)) [
  | inl e ↦ rw e ((0, omega arith, unfold hex_digit in refl), tt)
  | inr e ↦ rw e (print_digits-IsDigit n 16 n [] (omega arith) (omega arith) tt)
]

pub hex-IsPrinted : (n : ℕ) → All IsPrinted (hex n)
unfolding hex is_space
hex-IsPrinted n = (refl, (refl, All-mono IsDigit IsPrinted _ IsPrinted-digit (hex_tail-IsDigit n)))

pub decimal-IsDigit : (n : ℕ) → All IsDigit (decimal n)
unfolding decimal
decimal-IsDigit n = elim (Bool-cases (n == 0)) [
  | inl e ↦ rw e ((0, omega arith, unfold hex_digit in refl), tt)
  | inr e ↦ rw e (print_digits-IsDigit n 10 n [] (omega arith) (omega arith) tt)
]

digit-ne-underscore : (c : ℕ) → IsDigit c → (c == b'_') ≡ false
unfolding hex_digit
digit-ne-underscore c (d, h, e) = ground arith

skip_underscore-digits : (s : Str) → All IsDigit s → skip_underscore s ≡ s
skip_underscore-digits [] h = refl
skip_underscore-digits (c ∷ s) (p, h) = rw (digit-ne-underscore c p) refl

digits_of-print_digits :
    (base n : ℕ) → 2 ≤ base → base ≤ 16 → 0 < n → digits_of base (print_digits n base n []) ≡ some n
unfolding digits_after
digits_of-print_digits base n lo hi h = digits_after-print_digits n base n [] lo hi h (omega arith)

not-int_space : (c : ℕ) → IsPrinted c → is_int_space c ≡ false
unfolding is_int_space
not-int_space c h = rw h refl

unsigned_hex :
    (n : ℕ)
    → digits_of 16 (skip_underscore (if n == 0 then b'0' ∷ [] else print_digits n 16 n [])) ≡ some n
unfolding digits_after
unsigned_hex n = rw (skip_underscore-digits _ (hex_tail-IsDigit n)) (elim (Bool-cases (n == 0)) [
  | inl e ↦ let is_zero : n ≡ 0 = (==_iff _ _).0 e in rw is_zero refl
  | inr e ↦ rw e (digits_of-print_digits 16 n (omega arith) (omega arith) (ground arith))
])

signed-hex : (n : ℕ) → signed 0 (hex n) ≡ some (pos n)
unfolding signed hex
signed-hex n = rw (unsigned_hex n) refl

parse_int-signed :
    (base : ℕ) (s : Str) {z : ℤ}
    → All IsPrinted s
    → signed base s ≡ some z
    → parse_int base s ≡ ok z
unfolding parse_int
parse_int-signed base s h e =
    let spaces =
      strip_by-none is_int_space s
        (All-mono IsPrinted (λ c. is_int_space c ≡ false) s not-int_space h) in
    rw (ap (signed base) spaces ∙ e, parse_int) refl

-- `int(hex(n), 0)` is `n`.
pub parse_int-hex : (n : ℕ) → parse_int 0 (hex n) ≡ ok (pos n)
parse_int-hex n = parse_int-signed 0 (hex n) (hex-IsPrinted n) (signed-hex n)

unsigned-decimal : (a : ℕ) (s : Str) → unsigned 10 (a ∷ s) ≡ digits_of 10 (a ∷ s)
unfolding unsigned
unsigned-decimal a [] = refl
unsigned-decimal a (c ∷ s) = ground arith

signed-digit :
    (a : ℕ) (s : Str) {n : ℕ}
    → IsDigit a
    → digits_of 10 (a ∷ s) ≡ some n
    → signed 10 (a ∷ s) ≡ some (pos n)
unfolding signed hex_digit
signed-digit a s (d, h, e) k = ground (arith, unsigned-decimal a s)

signed-digits :
    (s : Str) {n : ℕ} → All IsDigit s → digits_of 10 s ≡ some n → signed 10 s ≡ some (pos n)
signed-digits [] h k = unfold digits_after in cc
signed-digits (a ∷ s) (p, h) k = signed-digit a s p k

digits_of-decimal : (n : ℕ) → digits_of 10 (decimal n) ≡ some n
unfolding decimal
digits_of-decimal n = elim (Bool-cases (n == 0)) [
  | inl e ↦ let is_zero : n ≡ 0 = (==_iff _ _).0 e in rw is_zero (unfold digits_after in refl)
  | inr e ↦ rw e (digits_of-print_digits 10 n (omega arith) (omega arith) (ground arith))
]

-- `int(str(n))` is `n`.
pub parse_int-decimal : (n : ℕ) → parse_int 10 (decimal n) ≡ ok (pos n)
parse_int-decimal n =
    parse_int-signed 10 (decimal n)
      (All-mono IsDigit IsPrinted (decimal n) IsPrinted-digit (decimal-IsDigit n))
      (signed-digits (decimal n) (decimal-IsDigit n) (digits_of-decimal n))

pub contains-none : (k : ℕ) (s : Str) → All (λ c. (c == k) ≡ false) s → contains k s ≡ false
unfolding contains
contains-none k [] h = refl
contains-none k (c ∷ s) (e, h) = rw (e, contains-none k s h) refl

-- A character that is neither a digit nor the letter x is not in what `hex` prints.
abbrev pub IsOther : ℕ → Type 0
IsOther k = ((d : ℕ) → d < 16 → (hex_digit d == k) ≡ false) × ((b'x' == k) ≡ false)

pub hex-lacks :
    (k n : ℕ) → IsOther k → (contains k (hex n) ≡ false) × (contains k (drop 1 (hex n)) ≡ false)
unfolding hex contains
hex-lacks k n (digits, letter) =
    let first : (b'0' == k) ≡ false = unfold hex_digit in digits 0 (omega arith) in
    let tail = contains-none k _ (
      All-mono IsDigit (λ c. (c == k) ≡ false) _
        (λ c. λ (d, h, e). ap (λ (x : ℕ). x == k) e ∙ digits d h) (hex_tail-IsDigit n)) in
    (rw (first, letter, tail) refl, rw (letter, tail) refl)

pub IsOther-dot : IsOther b'.'
unfolding hex_digit
IsOther-dot = (λ d h. ground arith, refl)

pub IsOther-colon : IsOther b':'
unfolding hex_digit
IsOther-colon = (λ d h. ground arith, refl)

pub IsOther-dash : IsOther b'-'
unfolding hex_digit
IsOther-dash = (λ d h. ground arith, refl)

pub IsOther-slash : IsOther b'/'
unfolding hex_digit
IsOther-slash = (λ d h. ground arith, refl)

pub strip-hex : (n : ℕ) → strip (hex n) ≡ hex n
strip-hex n = strip_by-none is_space (hex n) (hex-IsPrinted n)

pub decimal-lacks :
    (k n : ℕ)
    → IsOther k
    → (contains k (decimal n) ≡ false) × (contains k (drop 1 (decimal n)) ≡ false)
decimal-lacks k n (digits, _) =
    let all =
      All-mono IsDigit (λ c. (c == k) ≡ false) (decimal n)
        (λ c. λ (d, h, e). ap (λ (x : ℕ). x == k) e ∙ digits d h) (decimal-IsDigit n) in
    (contains-none k (decimal n) all, contains-none k (drop 1 (decimal n)) (tail (decimal n) all))
  where
    tail : (s : Str) → All (λ c. (c == k) ≡ false) s → All (λ c. (c == k) ≡ false) (drop 1 s)
    tail [] h = tt
    tail (c ∷ s) h = h.1

pub IsOther-amp : IsOther b'&'
unfolding hex_digit
IsOther-amp = (λ d h. ground arith, refl)
