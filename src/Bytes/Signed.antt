-- ===== src/Bytes/Signed.antt =====
-- Two's complement: round trip, and the bytes that repeat the sign.
use native.Mathlib.Nat.{pow-suc, mul-le-mul_right}
use finsy.Prelude.{ℕ, suc, ◌+◌, ◌-◌, ◌*◌, ◌^◌, ◌≤◌, ◌<◌, ◌≡◌, refl, ap, true, false, arith}
use finsy.Prelude.{[], ◌∷◌, Bytes, length, All, ok, inl, inr, Bool-cases}
use finsy.Prelude.Int.{ℤ, pos, negsuc}
use finsy.Bytes.{
  IsByte, be_bytes, from_bytes, from_bytes_after, to_bytes_signed, from_bytes_signed, is_negative,
}
use finsy.Bytes.Laws.{
  from_bytes_after_split, from_bytes-lt, from_bytes-be_bytes, length-be_bytes, be_bytes-IsByte,
}

-- The sign is the upper half of the range.
pub is_negative-half :
    (bs : Bytes) → All IsByte bs → is_negative bs ≡ true → 256 ^ length bs ≤ from_bytes bs * 2
unfolding is_negative from_bytes_after
is_negative-half [] h e = cc
is_negative-half (b ∷ bs) (p, h) e =
    let high : 128 ≤ b = ground arith in
    omega (
      arith,
      from_bytes_after_split (0 * 256 + b) bs,
      mul-le-mul_right (256 ^ length bs) high,
      pow-suc 256 (length bs),
    )

pub not_negative-half :
    (bs : Bytes) → All IsByte bs → is_negative bs ≡ false → from_bytes bs * 2 < 256 ^ length bs
unfolding is_negative from_bytes_after
not_negative-half [] h e = omega arith
not_negative-half (b ∷ bs) (p, h) e =
    let low : b + 1 ≤ 128 = ground arith in
    omega (
      arith,
      from_bytes_after_split (0 * 256 + b) bs,
      from_bytes-lt bs h,
      mul-le-mul_right (256 ^ length bs) low,
      pow-suc 256 (length bs),
    )

-- A first byte 0xFF before a negative number, or 0x00 before another, changes nothing.
pub from_bytes_signed-ones :
    (bs : Bytes)
    → All IsByte bs
    → is_negative bs ≡ true
    → from_bytes_signed (255 ∷ bs) ≡ from_bytes_signed bs
unfolding from_bytes_signed from_bytes_after
from_bytes_signed-ones bs h e = rw e (
    ap negsuc
      (omega (arith, from_bytes_after_split 255 bs, from_bytes-lt bs h, pow-suc 256 (length bs))))

pub from_bytes_signed-zero :
    (bs : Bytes) → is_negative bs ≡ false → from_bytes_signed (0 ∷ bs) ≡ from_bytes_signed bs
unfolding from_bytes_signed from_bytes_after
from_bytes_signed-zero bs e = rw e

negative_of_half :
    (bs : Bytes) → All IsByte bs → 256 ^ length bs ≤ from_bytes bs * 2 → is_negative bs ≡ true
negative_of_half bs h half = elim (Bool-cases (is_negative bs)) [
  | inl e ↦ e
  | inr e ↦ absurd (omega (arith, not_negative-half bs h e))
]

not_negative_of_half :
    (bs : Bytes) → All IsByte bs → from_bytes bs * 2 < 256 ^ length bs → is_negative bs ≡ false
not_negative_of_half bs h half = elim (Bool-cases (is_negative bs)) [
  | inl e ↦ absurd (omega (arith, is_negative-half bs h e))
  | inr e ↦ e
]

-- The bytes of `m`, read as a signed number of that width.
signed_be_bytes :
    (size m : ℕ)
    → m < 256 ^ size
    → (m * 2 < 256 ^ size → from_bytes_signed (be_bytes size m) ≡ pos m)
      × (256 ^ size ≤ m * 2 → from_bytes_signed (be_bytes size m) ≡ negsuc (256 ^ size - m - 1))
unfolding from_bytes_signed
signed_be_bytes size m h =
    let own = from_bytes-be_bytes size m h in
    let wide = length-be_bytes size m in
    let bytes = be_bytes-IsByte size m in
    (
      λ low. rw (not_negative_of_half (be_bytes size m) bytes (rw (own, wide) low)) (ap pos own),
      λ high. rw (negative_of_half (be_bytes size m) bytes (rw (own, wide) high), own, wide) refl,
    )

-- Writing a signed number and reading it back, wherever the writing succeeds.
pub from_bytes_signed-to_bytes_signed :
    (size : ℕ) (v : ℤ) {bs : Bytes}
    → to_bytes_signed (suc size) v ≡ ok bs
    → from_bytes_signed bs ≡ v
unfolding to_bytes_signed
from_bytes_signed-to_bytes_signed size (pos n) e =
    ground (arith, (signed_be_bytes (suc size) n (ground arith)).0 (ground arith))
from_bytes_signed-to_bytes_signed size (negsuc n) e =
    let even = pow-suc 256 size in
    let fits : n * 2 < 256 ^ suc size = ground arith in
    let m : ℕ = 256 ^ suc size - suc n in
    ground (arith, (signed_be_bytes (suc size) m (omega arith)).1 (omega arith))

-- Writing succeeds on the whole range of two's complement.
pub to_bytes_signed_total :
    (size n : ℕ)
    → n * 2 < 256 ^ size
    → (to_bytes_signed size (pos n) ≡ ok (be_bytes size n))
      × (to_bytes_signed size (negsuc n) ≡ ok (be_bytes size (256 ^ size - suc n)))
unfolding to_bytes_signed
to_bytes_signed_total size n h = ground arith
