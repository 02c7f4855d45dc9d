-- ===== src/Values/Masks.antt =====
-- finsy/p4values.py: sizes, truncation to the shortest form, and masks.
-- A bit width is a natural number, so `bitwidth <= 0` is `bitwidth == 0`.
pub mod Laws
pub mod Truncate
use finsy.Prelude.{ℕ, zero, suc, ◌+◌, ◌-◌, ◌/◌, ◌^◌, Bool, true, false, not, bit_and}
use finsy.Prelude.{
  [], ◌∷◌, Bytes, ◌==◌, ◌||◌, if◌then◌else◌, Result, ok, err, value_error, index_error,
}
use finsy.Prelude.Int.{ℤ, pos, negsuc}
use finsy.Bits.{bit_length}
use finsy.Bytes.{lstrip}

unfoldable pub p4r_minimum_string_size : ℕ → Result ℕ
p4r_minimum_string_size bitwidth =
    if bitwidth == 0 then err value_error else ok ((bitwidth + 7) / 8)

or_zero_byte : Bytes → Bytes
or_zero_byte [] = 0 ∷ []
or_zero_byte (b ∷ bs) = b ∷ bs

unfoldable pub p4r_truncate : Bytes → Bytes
unfolding or_zero_byte
p4r_truncate value = or_zero_byte (lstrip 0 value)

-- `value[0] & 0x80`, of a byte string that is not empty
abbrev pub sign_bit : ℕ → ℕ
sign_bit b = bit_and b 0x80

-- The sign's byte goes back in front where what is left shows another sign.
restore_ones : Bytes → Bytes
restore_ones [] = 0xFF ∷ []
restore_ones (b ∷ bs) = if sign_bit b == 0 then 0xFF ∷ b ∷ bs else b ∷ bs

restore_zero : Bytes → Bytes
restore_zero [] = 0 ∷ []
restore_zero (b ∷ bs) = if sign_bit b == 0x80 then 0 ∷ b ∷ bs else b ∷ bs

unfoldable pub p4r_truncate_signed : Bytes → Result Bytes
unfolding restore_ones restore_zero
p4r_truncate_signed [] = err index_error
p4r_truncate_signed (b ∷ bs) =
    if sign_bit b == 0x80
    then ok (restore_ones (lstrip 0xFF (b ∷ bs)))
    else ok (restore_zero (lstrip 0 (b ∷ bs)))

unfoldable pub all_ones : ℕ → ℕ
all_ones bitwidth = 2 ^ bitwidth - 1

-- n & m, where `m` may be negative: `negsuc m` is `~m`.
unfoldable pub and_int : ℕ → ℤ → ℕ
and_int n (pos m) = bit_and n m
and_int n (negsuc m) = n - bit_and n m

-- `~value & all_ones(bitwidth)`
abbrev complement : ℕ → ℕ → ℕ
complement value bitwidth = all_ones bitwidth - bit_and value (all_ones bitwidth)

unfoldable pub mask_to_prefix : ℕ → ℕ → ℤ
unfolding all_ones
mask_to_prefix value bitwidth =
    let mask = complement value bitwidth in
    if bit_and mask (mask + 1) == 0 then pos (bitwidth - bit_length mask) else negsuc 0
