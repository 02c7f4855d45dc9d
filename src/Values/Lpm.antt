-- ===== src/Values/Lpm.antt =====
-- finsy/p4values.py: longest-prefix-match values.
pub mod Laws
use finsy.Prelude.{
  ℕ, zero, suc, ◌+◌, ◌-◌, ◌^◌, Bool, true, false, ◌&&◌, ◌||◌, not, Option, none, some,
}
use finsy.Prelude.{[], ◌∷◌, ◌++◌, Str, Bytes, drop, codes, ltb, leb, ◌==◌, if◌then◌else◌}
use finsy.Prelude.{Result, ok, err, value_error, assertion_error, ◌>>=◌, ◌>>◌, guard}
use finsy.Prelude.Int.{ℤ, pos, negsuc}
use finsy.Text.{contains, split_once}
use finsy.Text.Number.{parse_int, decimal}
use finsy.IpAddress.{ipv4_from_text, ipv6_from_text, network}
use finsy.MacAddress
use finsy.MacAddress.{MacAddress, mac_address}
use finsy.Values.Masks.{all_ones, mask_to_prefix}
use finsy.Values.Exact.{
  DecodeFormat, with_string, ExactValue, int, str, ipv4, ipv6, mac, encode_masked, encode_exact,
  decode_exact, as_text,
}

-- _LPMValue and _LPMReturn. A text, a number or an address alone is `exact`.
pub data LpmValue : Type 0 where
  exact : ExactValue → LpmValue
  pair : ExactValue → ℤ → LpmValue
  ipv4_network : ℕ → ℕ → LpmValue
  ipv6_network : ℕ → ℕ → LpmValue

-- The prefix of an address used as a mask.
prefix_of_mask : Result ℕ → ℕ → Result ℤ
prefix_of_mask (ok n) width = ok (mask_to_prefix n width)
prefix_of_mask (err e) width = err e

mac_number : Result MacAddress → Result ℕ
mac_number (ok a) = ok a.mac
mac_number (err e) = err e

unfoldable pub parse_lpm_prefix : Str → ℕ → Result ℤ
unfolding prefix_of_mask mac_number
parse_lpm_prefix value bitwidth =
    if bitwidth == 32 && contains b'.' value
    then prefix_of_mask (ipv4_from_text value) 32
    else if bitwidth == 128 && contains b':' value
    then prefix_of_mask (ipv6_from_text value) 128
    else if bitwidth == 48 && (contains b'-' (drop 1 value) || contains b':' value)
    then prefix_of_mask (mac_number (mac_address (MacAddress.text value))) 48
    else parse_int 10 value

-- `prefix > bitwidth or prefix < 0` is refused.
unfoldable pub check_prefix : ℤ → ℕ → Result ℕ
check_prefix (pos p) bitwidth = if ltb bitwidth p then err value_error else ok p
check_prefix (negsuc p) bitwidth = err value_error

-- A value and its prefix: the bits below the prefix are cleared.
unfoldable pub encode_prefixed : ExactValue → ℕ → ℤ → Result (Bytes × ℕ)
unfolding check_prefix
encode_prefixed value bitwidth prefix = do
  p ← check_prefix prefix bitwidth
  bytes ← encode_masked value bitwidth (negsuc (all_ones (bitwidth - p)))
  ok (bytes, p)

unfoldable pub with_prefix : Result Bytes → ℕ → Result (Bytes × ℕ)
with_prefix (ok bytes) prefix = ok (bytes, prefix)
with_prefix (err e) prefix = err e

slash_parts : Option (Str × Str) → Str → ℕ → Result (Bytes × ℕ)
unfolding with_prefix
slash_parts none value bitwidth = with_prefix (encode_exact (str value) bitwidth) bitwidth
slash_parts (some (front, back)) value bitwidth = do
  prefix ← parse_lpm_prefix back bitwidth
  encode_prefixed (str front) bitwidth prefix

unfoldable pub parse_lpm_str : Str → ℕ → Result (Bytes × ℕ)
unfolding slash_parts
parse_lpm_str value bitwidth = slash_parts (split_once (codes "/") value) value bitwidth

-- An address or a network of another width is refused.
unfoldable pub of_width : ℕ → ExactValue → ℕ → ℕ → Result (Bytes × ℕ)
unfolding with_prefix
of_width max_prefixlen value bitwidth prefix =
    if bitwidth == max_prefixlen
    then with_prefix (encode_exact value bitwidth) prefix
    else err value_error

encode_lpm_value : LpmValue → ℕ → Result (Bytes × ℕ)
unfolding with_prefix of_width
encode_lpm_value (exact (int n)) bitwidth = with_prefix (encode_exact (int n) bitwidth) bitwidth
encode_lpm_value (exact (str s)) bitwidth = parse_lpm_str s bitwidth
encode_lpm_value (exact (ipv4 n)) bitwidth = of_width 32 (ipv4 n) bitwidth bitwidth
encode_lpm_value (exact (ipv6 n)) bitwidth = of_width 128 (ipv6 n) bitwidth bitwidth
encode_lpm_value (exact (mac a)) bitwidth = of_width 48 (mac a) bitwidth bitwidth
encode_lpm_value (pair value prefix) bitwidth = encode_prefixed value bitwidth prefix
encode_lpm_value (ipv4_network n prefixlen) bitwidth = of_width 32 (ipv4 n) bitwidth prefixlen
encode_lpm_value (ipv6_network n prefixlen) bitwidth = of_width 128 (ipv6 n) bitwidth prefixlen

unfoldable pub encode_lpm : LpmValue → ℕ → Result (Bytes × ℕ)
unfolding encode_lpm_value
encode_lpm value bitwidth =
    if bitwidth == 0 then err value_error else encode_lpm_value value bitwidth

-- f"{value}/{prefix_len}", where the prefix is not the whole width
unfoldable pub slash_prefix : Str → ℕ → ℕ → Str
slash_prefix value prefix_len bitwidth =
    if prefix_len == bitwidth then value else value ++ (codes "/" ++ decimal prefix_len)

-- The `match value` of `decode_lpm`; a network with bits set below its prefix is a ValueError.
unfoldable pub lpm_result : ExactValue → ℕ → ℕ → Result LpmValue
lpm_result (ipv4 n) prefix_len bitwidth = do
  (address, prefix) ← network 32 n prefix_len
  ok (ipv4_network address prefix)
lpm_result (ipv6 n) prefix_len bitwidth = do
  (address, prefix) ← network 128 n prefix_len
  ok (ipv6_network address prefix)
lpm_result (str s) prefix_len bitwidth = ok (exact (str (slash_prefix s prefix_len bitwidth)))
lpm_result (int n) prefix_len bitwidth = ok (pair (int n) (pos prefix_len))
lpm_result (mac a) prefix_len bitwidth = ok (pair (mac a) (pos prefix_len))

unfoldable pub decode_lpm : Bytes → ℕ → ℕ → DecodeFormat → Result LpmValue
unfolding lpm_result
decode_lpm bytes prefix_len bitwidth format = do
  value ← decode_exact bytes bitwidth format
  lpm_result value prefix_len bitwidth

-- `assert isinstance(result, str)`
lpm_text : LpmValue → Result Str
lpm_text (exact value) = as_text value
lpm_text _ = err assertion_error

unfoldable pub format_lpm : LpmValue → ℕ → DecodeFormat → Result Str
unfolding lpm_text
format_lpm value bitwidth format = do
  (bytes, prefix) ← encode_lpm value bitwidth
  result ← decode_lpm bytes prefix bitwidth (with_string format)
  lpm_text result
