-- ===== src/Values/Masks/Truncate.antt =====
-- Truncation keeps the number, and gives the one shortest byte string of it.
use finsy.Prelude.{ℕ, zero, suc, ◌^◌, ◌<◌, ◌≡◌, ◌≢◌, refl, ap, sym, ◌∙◌, Bool, true, false}
use finsy.Prelude.{arith, [], ◌∷◌, Bytes, All, ok, leb, ◌==◌, ==_iff, ◌&&◌}
use finsy.Prelude.{inl, inr, Bool-cases, if◌then◌else◌}
use finsy.Bytes.{
  IsByte, lstrip, from_bytes, from_bytes_after, be_bytes, from_bytes_signed, is_negative,
}
use finsy.Bytes.Laws.{lstrip-from_bytes, lstrip-canonical, lstrip-IsByte}
use finsy.Bytes.Signed.{from_bytes_signed-ones, from_bytes_signed-zero}
use finsy.Values.Masks.{
  p4r_truncate, p4r_truncate_signed, or_zero_byte, restore_ones, restore_zero, sign_bit,
}

pub from_bytes-p4r_truncate : (bs : Bytes) → from_bytes (p4r_truncate bs) ≡ from_bytes bs
unfolding p4r_truncate
from_bytes-p4r_truncate bs = or_zero (lstrip 0 bs) ∙ lstrip-from_bytes bs
  where
    or_zero : (s : Bytes) → from_bytes (or_zero_byte s) ≡ from_bytes s
    or_zero [] = unfold from_bytes_after in refl
    or_zero (b ∷ s) = refl

-- Truncating the bytes of a number at any width gives one result.
pub p4r_truncate-canonical :
    (bs : Bytes) (size : ℕ)
    → All IsByte bs
    → from_bytes bs < 256 ^ size
    → p4r_truncate (be_bytes size (from_bytes bs)) ≡ p4r_truncate bs
unfolding p4r_truncate
p4r_truncate-canonical bs size h fits = ap or_zero_byte (lstrip-canonical bs size h fits)

pub p4r_truncate-ne-nil : (bs : Bytes) → p4r_truncate bs ≢ []
unfolding p4r_truncate
p4r_truncate-ne-nil bs = some_byte (lstrip 0 bs)
  where
    some_byte : (s : Bytes) → or_zero_byte s ≢ []
    some_byte [] e = cc
    some_byte (b ∷ s) e = cc

pub p4r_truncate-IsByte : (bs : Bytes) → All IsByte bs → All IsByte (p4r_truncate bs)
unfolding p4r_truncate
p4r_truncate-IsByte bs h = keep (lstrip 0 bs) (lstrip-IsByte 0 bs h)
  where
    keep : (s : Bytes) → All IsByte s → All IsByte (or_zero_byte s)
    keep [] k = (omega arith, tt)
    keep (b ∷ s) k = k

-- `value[0] & 0x80` is the sign.
same_sign : ℕ → Bool
same_sign b = if leb 128 b then sign_bit b == 0x80 else sign_bit b == 0

all_same_sign : ℕ → Bool
all_same_sign zero = true
all_same_sign (suc n) = same_sign n && all_same_sign n

same_sign_below : (n b : ℕ) → all_same_sign n ≡ true → b < n → same_sign b ≡ true
unfolding all_same_sign
same_sign_below zero b h lt = absurd (omega arith)
same_sign_below (suc n) b h lt = ground (arith, same_sign_below n b)

sign_table : all_same_sign 256 ≡ true
unfolding all_same_sign same_sign
sign_table = refl

sign_bit_cases :
    (b : ℕ) → b < 256 → (if leb 128 b then sign_bit b == 0x80 else sign_bit b == 0) ≡ true
unfolding same_sign
sign_bit_cases b h = same_sign_below 256 b sign_table h

restore_ones_low :
    (bs : Bytes)
    → All IsByte bs
    → is_negative bs ≡ false
    → restore_ones (lstrip 0xFF bs) ≡ 0xFF ∷ bs
unfolding is_negative lstrip restore_ones
restore_ones_low [] h e = refl
restore_ones_low (b ∷ bs) (p, h) e = ground (arith, sign_bit_cases b p)

restore_ones_high :
    (b : ℕ) (bs : Bytes) → b < 256 → leb 128 b ≡ true → restore_ones (b ∷ bs) ≡ b ∷ bs
unfolding restore_ones
restore_ones_high b bs p e = ground (arith, sign_bit_cases b p)

restore_zero_high :
    (bs : Bytes) → All IsByte bs → is_negative bs ≡ true → restore_zero (lstrip 0 bs) ≡ 0 ∷ bs
unfolding is_negative lstrip restore_zero
restore_zero_high [] h e = cc
restore_zero_high (b ∷ bs) (p, h) e = ground (arith, sign_bit_cases b p)

restore_zero_low :
    (b : ℕ) (bs : Bytes) → b < 256 → leb 128 b ≡ false → restore_zero (b ∷ bs) ≡ b ∷ bs
unfolding restore_zero
restore_zero_low b bs p e = ground (arith, sign_bit_cases b p)

-- Stripping repeated sign bytes, and putting one back where the sign would be lost.
restore_ones-lstrip :
    (bs : Bytes)
    → All IsByte bs
    → is_negative bs ≡ true
    → from_bytes_signed (restore_ones (lstrip 0xFF bs)) ≡ from_bytes_signed bs
unfolding lstrip is_negative
restore_ones-lstrip [] h e = cc
restore_ones-lstrip (b ∷ bs) (p, h) e =
    let tail = restore_ones-lstrip bs h in
    elim (Bool-cases (b == 0xFF)) [
      | inr other ↦ rw (other, restore_ones_high b bs p e) refl
      | inl ones ↦
          let same : b ≡ 0xFF = (==_iff _ _).0 ones in
          elim (Bool-cases (is_negative bs)) [
            | inl neg ↦ rw ones (tail neg ∙ rw same (sym (from_bytes_signed-ones bs h neg)))
            | inr low ↦ rw (ones, restore_ones_low bs h low, same) refl
          ]
    ]

restore_zero-lstrip :
    (bs : Bytes)
    → All IsByte bs
    → is_negative bs ≡ false
    → from_bytes_signed (restore_zero (lstrip 0 bs)) ≡ from_bytes_signed bs
unfolding lstrip is_negative
restore_zero-lstrip [] h e = unfold restore_zero from_bytes_signed from_bytes_after in refl
restore_zero-lstrip (b ∷ bs) (p, h) e =
    let tail = restore_zero-lstrip bs h in
    elim (Bool-cases (b == 0)) [
      | inr other ↦ rw (other, restore_zero_low b bs p e) refl
      | inl zero_byte ↦
          let same : b ≡ 0 = (==_iff _ _).0 zero_byte in
          elim (Bool-cases (is_negative bs)) [
            | inr low ↦ rw zero_byte (tail low ∙ rw same (sym (from_bytes_signed-zero bs low)))
            | inl high ↦ rw (zero_byte, restore_zero_high bs h high, same) refl
          ]
    ]

-- Signed truncation of a byte string that is not empty returns bytes of the same signed number.
pub from_bytes_signed-p4r_truncate_signed :
    (b : ℕ) (bs : Bytes)
    → All IsByte (b ∷ bs)
    → (s : Bytes) × (p4r_truncate_signed (b ∷ bs) ≡ ok s)
      × (from_bytes_signed s ≡ from_bytes_signed (b ∷ bs))
unfolding p4r_truncate_signed is_negative
from_bytes_signed-p4r_truncate_signed b bs h = elim (Bool-cases (leb 128 b)) [
  | inl neg ↦ (
    restore_ones (lstrip 0xFF (b ∷ bs)),
    ground (arith, sign_bit_cases b h.0),
    restore_ones-lstrip (b ∷ bs) h neg,
  )
  | inr low ↦ (
    restore_zero (lstrip 0 (b ∷ bs)),
    ground (arith, sign_bit_cases b h.0),
    restore_zero-lstrip (b ∷ bs) h low,
  )
]
