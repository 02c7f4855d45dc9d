-- ===== src/Values/Signed.antt =====
-- finsy/p4values.py: signed values and members of an enum.
pub mod Laws
use finsy.Prelude.{
  ℕ, zero, suc, ◌-◌, ◌^◌, ◌/◌, Bool, ◌||◌, [], ◌∷◌, Bytes, ltb, leb, ◌==◌, if◌then◌else◌,
}
use finsy.Prelude.{Result, ok, err, value_error, ◌>>=◌, ◌>>◌}
use finsy.Prelude.Int.{ℤ, pos, negsuc}
use finsy.Bytes.{to_bytes, to_bytes_signed, from_bytes, from_bytes_signed}
use finsy.Values.Masks.{p4r_minimum_string_size, p4r_truncate, p4r_truncate_signed}
use finsy.Values.Exact.{in_width}

-- `1 << (bitwidth - 1)` is a ValueError at width 0; else it is max_value + 1.
half_range : ℕ → Result ℕ
half_range zero = err value_error
half_range (suc w) = ok (2 ^ w)

-- `value > max_value or value < -max_value - 1` is refused.
check_signed : ℤ → ℕ → Result ℤ
check_signed (pos n) half = if ltb n half then ok (pos n) else err value_error
check_signed (negsuc n) half = if ltb n half then ok (negsuc n) else err value_error

unfoldable pub encode_signed : ℤ → ℕ → Result Bytes
unfolding half_range check_signed
encode_signed value bitwidth = do
  half ← half_range bitwidth
  checked ← check_signed value half
  size ← p4r_minimum_string_size bitwidth
  bytes ← to_bytes_signed size checked
  p4r_truncate_signed bytes

-- The width is not looked at.
unfoldable pub decode_signed : Bytes → ℕ → ℤ
decode_signed bytes bitwidth = from_bytes_signed bytes

unfoldable pub encode_enum : ℤ → ℕ → Result Bytes
encode_enum value bitwidth = do
  n ← in_width value bitwidth
  size ← p4r_minimum_string_size bitwidth
  bytes ← to_bytes size (pos n)
  ok (p4r_truncate bytes)

unfoldable pub decode_enum : Bytes → ℕ → Result ℕ
decode_enum [] bitwidth = err value_error
decode_enum (b ∷ bs) bitwidth =
    if bitwidth == 0
    then err value_error
    else if ltb (from_bytes (b ∷ bs)) (2 ^ bitwidth)
    then ok (from_bytes (b ∷ bs))
    else err value_error
