-- ===== src/Values/Exact.antt =====
-- finsy/p4values.py: exact values.
pub mod Laws
pub mod Texts
use finsy.Prelude.{ℕ, zero, suc, ◌+◌, ◌^◌, Bool, true, false, ◌&&◌, ◌||◌, not}
use finsy.Prelude.{[], ◌∷◌, Str, Bytes, drop, ltb, ◌==◌, if◌then◌else◌}
use finsy.Prelude.{Result, ok, err, value_error, assertion_error, ◌>>=◌, ◌>>◌, guard}
use finsy.Prelude.Int.{ℤ, pos, negsuc, eqb_ℤ}
use finsy.Bytes.{to_bytes, from_bytes}
use finsy.Text.{contains, strip}
use finsy.Text.Number.{parse_int, hex}
use finsy.IpAddress.{ipv4_from_text, ipv4_text, ipv6_from_text, ipv6_text}
use finsy.Utf8
use finsy.MacAddress.{MacAddress, mac_address, to_string}
use finsy.MacAddress
use finsy.Values.Masks.{p4r_minimum_string_size, p4r_truncate, and_int}

-- enum.Flag: `DEFAULT` has neither bit.
pub record DecodeFormat : Type 0 where
  pub as_string : Bool
  pub as_address : Bool

abbrev pub default_format : DecodeFormat
default_format = record { as_string = false; as_address = false }

-- `format | DecodeFormat.STRING`
abbrev pub with_string : DecodeFormat → DecodeFormat
with_string format = record format { as_string = true }

-- _ExactValue and _ExactReturn
pub data ExactValue : Type 0 where
  int : ℤ → ExactValue
  str : Str → ExactValue
  ipv4 : ℕ → ExactValue
  ipv6 : ℕ → ExactValue
  mac : MacAddress → ExactValue

mac_int : Result MacAddress → Result ℤ
mac_int (ok a) = ok (pos a.mac)
mac_int (err e) = err e

as_int : Result ℕ → Result ℤ
as_int (ok n) = ok (pos n)
as_int (err e) = err e

-- _parse_exact_str, after `value = value.strip()`
unfoldable pub parse_stripped : Str → ℕ → Result ℤ
unfolding mac_int as_int
parse_stripped value bitwidth =
    if bitwidth == 32 && contains b'.' value
    then as_int (ipv4_from_text value)
    else if bitwidth == 128 && contains b':' value
    then as_int (ipv6_from_text value)
    else if bitwidth == 48 && (contains b'-' (drop 1 value) || contains b':' value)
    then mac_int (mac_address (MacAddress.text value))
    else parse_int 0 value

unfoldable pub parse_exact_str : Str → ℕ → Result ℤ
unfolding parse_stripped
parse_exact_str value bitwidth = parse_stripped (strip value) bitwidth

-- The `match value` of `encode_exact`.
unfoldable pub exact_int : ExactValue → ℕ → Result ℤ
unfolding parse_exact_str
exact_int (int n) bitwidth = ok n
exact_int (str s) bitwidth = parse_exact_str s bitwidth
exact_int (ipv4 n) bitwidth = if bitwidth == 32 then ok (pos n) else err value_error
exact_int (ipv6 n) bitwidth = if bitwidth == 128 then ok (pos n) else err value_error
exact_int (mac a) bitwidth = if bitwidth == 48 then ok (pos a.mac) else err value_error

-- `ival >= (1 << bitwidth) or ival < 0` is refused.
unfoldable pub in_width : ℤ → ℕ → Result ℕ
in_width (pos n) bitwidth = if ltb n (2 ^ bitwidth) then ok n else err value_error
in_width (negsuc n) bitwidth = err value_error

abbrev pub no_mask : ℤ
no_mask = negsuc 0

-- `if mask != ~0: ival &= mask`
unfoldable pub apply_mask : ℕ → ℤ → ℕ
unfolding and_int
apply_mask ival mask = if eqb_ℤ mask no_mask then ival else and_int ival mask

-- A width of 0 is an `SdnString`.
encode_sdn : ExactValue → Result Bytes
encode_sdn (str s) = Utf8.encode s
encode_sdn _ = err value_error

unfoldable pub encode_number : ExactValue → ℕ → ℤ → Result Bytes
encode_number value bitwidth mask = do
  ival ← exact_int value bitwidth
  n ← in_width ival bitwidth
  size ← p4r_minimum_string_size bitwidth
  bytes ← to_bytes size (pos (apply_mask n mask))
  ok (p4r_truncate bytes)

-- encode_exact with its third argument, which is `~0` by default
unfoldable pub encode_masked : ExactValue → ℕ → ℤ → Result Bytes
unfolding encode_sdn encode_number
encode_masked value bitwidth mask =
    if bitwidth == 0 then encode_sdn value else encode_number value bitwidth mask

abbrev pub encode_exact : ExactValue → ℕ → Result Bytes
encode_exact value bitwidth = encode_masked value bitwidth no_mask

-- _decode_addr
unfoldable pub decode_addr : ℕ → ℕ → DecodeFormat → ExactValue
decode_addr value bitwidth format =
    if bitwidth == 128
    then (if format.as_string then str (ipv6_text value) else ipv6 value)
    else if bitwidth == 48
    then (if format.as_string
        then str (to_string (record { mac = value }))
        else mac (record { mac = value }))
    else if bitwidth == 32
    then (if format.as_string then str (ipv4_text value) else ipv4 value)
    else if format.as_string
    then str (hex value)
    else int (pos value)

decode_sdn : Bytes → Result ExactValue
decode_sdn bytes = do s ← Utf8.decode bytes; ok (str s)

-- The number of a byte string that is not empty, if it fits the width.
unfoldable pub decode_number : Bytes → ℕ → Result ℕ
decode_number [] bitwidth = err value_error
decode_number (b ∷ bs) bitwidth =
    if ltb (from_bytes (b ∷ bs)) (2 ^ bitwidth) then ok (from_bytes (b ∷ bs)) else err value_error

unfoldable pub present : ℕ → ℕ → DecodeFormat → ExactValue
unfolding decode_addr
present ival bitwidth format =
    if format.as_address
    then decode_addr ival bitwidth format
    else if format.as_string
    then str (hex ival)
    else int (pos ival)

unfoldable pub decode_exact : Bytes → ℕ → DecodeFormat → Result ExactValue
unfolding decode_sdn decode_number present
decode_exact bytes bitwidth format =
    if bitwidth == 0
    then decode_sdn bytes
    else (do ival ← decode_number bytes bitwidth; ok (present ival bitwidth format))

-- `assert isinstance(result, str)`
unfoldable pub as_text : ExactValue → Result Str
as_text (str s) = ok s
as_text _ = err assertion_error

unfoldable pub format_exact : ExactValue → ℕ → DecodeFormat → Result Str
unfolding as_text
format_exact value bitwidth format = do
  bytes ← encode_exact value bitwidth
  result ← decode_exact bytes bitwidth (with_string format)
  as_text result
