-- ===== src/Text/Number/Digits.antt =====
-- What `hex` and `decimal` print, `int` reads.
use native.Mathlib.Nat.{div-add-mod', div-lt_self, mod-lt}
use native.Mathlib.Decide.{dec_lt}
use finsy.Prelude.{ℕ, zero, suc, ◌+◌, ◌*◌, ◌/◌, ◌%◌, ◌≤◌, ◌<◌, ◌≡◌, refl, ap, ◌∙◌, arith}
use finsy.Prelude.{◌∷◌, Str, All, Bool, true, false, ◌==◌}
use finsy.Prelude.{inl, inr, Bool-cases, ne→==_false}
use finsy.Text.Number.{digits_after, hex_digit, print_digits}

-- One printed digit in front adds itself to the number.
digits_after-hex_digit :
    (base d : ℕ) (s : Str) (acc : ℕ) (gap : Bool)
    → d < base
    → base ≤ 16
    → digits_after base (hex_digit d ∷ s) acc gap ≡ digits_after base s (acc * base + d) false
unfolding digits_after hex_digit
digits_after-hex_digit base d s acc gap h k = ground arith

print_digits-zero : (fuel base : ℕ) (s : Str) → print_digits fuel base 0 s ≡ s
unfolding print_digits
print_digits-zero zero base s = refl
print_digits-zero (suc fuel) base s = refl

-- All digits of a positive number, before whatever follows.
pub digits_after-print_digits :
    (fuel base n : ℕ) (s : Str)
    → 2 ≤ base
    → base ≤ 16
    → 0 < n
    → n ≤ fuel
    → digits_after base (print_digits fuel base n s) 0 true ≡ digits_after base s n false
unfolding print_digits
digits_after-print_digits zero base n s lo hi h k = absurd (omega arith)
digits_after-print_digits (suc fuel) base n s lo hi h k =
    let tail = hex_digit (n % base) ∷ s in
    let small = div-lt_self {n = n} {k = base} h lo in
    let low = mod-lt n {m = base} (omega arith) in
    let sum = div-add-mod' n base in
    elim (dec_lt 0 (n / base)) [
      | yes more ↦ rw (ne→==_false n h) (
          digits_after-print_digits fuel base (n / base) tail lo hi more (omega arith)
          ∙ digits_after-hex_digit base (n % base) s (n / base) false low hi
          ∙ ap (λ (m : ℕ). digits_after base s m false) (omega arith))
      | no done ↦
          let nothing : n / base ≡ 0 = omega arith in
          rw (ne→==_false n h, nothing, print_digits-zero)
            (digits_after-hex_digit base (n % base) s 0 true low hi
              ∙ ap (λ (m : ℕ). digits_after base s m false)
                  (omega (arith, ap (λ (t : ℕ). t * base) nothing)))
    ]

-- Every character printed is a digit.
abbrev pub IsDigit : ℕ → Type 0
IsDigit c = (d : ℕ) × (d < 16) × (c ≡ hex_digit d)

pub print_digits-IsDigit :
    (fuel base n : ℕ) (s : Str)
    → 0 < base
    → base ≤ 16
    → All IsDigit s
    → All IsDigit (print_digits fuel base n s)
unfolding print_digits
print_digits-IsDigit zero base n s lo hi h = h
print_digits-IsDigit (suc fuel) base n s lo hi h =
    let low = mod-lt n {m = base} lo in
    let more =
      print_digits-IsDigit fuel base (n / base) (hex_digit (n % base) ∷ s) lo hi
        ((n % base, omega arith, refl), h) in
    elim (Bool-cases (n == 0)) [ inl e ↦ rw e h | inr e ↦ rw e more ]
