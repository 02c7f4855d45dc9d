-- ===== src/Values/Ternary.antt =====
-- finsy/p4values.py: ternary and range values.
pub mod Laws
pub mod Texts
pub mod RoundTrip
use finsy.Prelude.{
  ℕ, zero, suc, ◌+◌, ◌-◌, ◌*◌, ◌^◌, Bool, true, false, ◌&&◌, not, Option, none, some,
}
use finsy.Prelude.{[], ◌∷◌, ◌++◌, Str, Bytes, codes, leb, ◌==◌, if◌then◌else◌}
use finsy.Prelude.{Result, ok, err, value_error, assertion_error, ◌>>=◌, ◌>>◌, guard}
use finsy.Prelude.Int.{ℤ, pos, negsuc}
use finsy.Bytes.{from_bytes}
use finsy.Text.{split_once}
use finsy.Text.Number.{decimal}
use finsy.Values.Masks.{all_ones, mask_to_prefix}
use finsy.Values.Exact.{
  DecodeFormat, with_string, ExactValue, int, str, ipv4, ipv6, mac, encode_exact, decode_exact,
  as_text,
}
use finsy.Values.Lpm.{parse_lpm_str}

-- _TernaryValue and _TernaryReturn
pub data TernaryValue : Type 0 where
  exact : ExactValue → TernaryValue
  pair : ExactValue → ExactValue → TernaryValue
  ipv4_network : ℕ → ℕ → TernaryValue
  ipv6_network : ℕ → ℕ → TernaryValue

-- Two values encoded, the first one first.
unfoldable pub encode_pair : ExactValue → ExactValue → ℕ → Result (Bytes × Bytes)
encode_pair a b bitwidth = do
  first ← encode_exact a bitwidth
  second ← encode_exact b bitwidth
  ok (first, second)

prefix_form : Result (Bytes × ℕ) → ℕ → Result (Bytes × Bytes)
prefix_form (err e) bitwidth = err e
prefix_form (ok (bytes, prefix)) bitwidth = do
  mask ← encode_exact (int (pos (all_ones prefix * 2 ^ (bitwidth - prefix)))) bitwidth
  ok (bytes, mask)

amp_form : Option (Str × Str) → Str → ℕ → Result (Bytes × Bytes)
unfolding prefix_form
amp_form none value bitwidth = prefix_form (parse_lpm_str value bitwidth) bitwidth
amp_form (some (value, mask)) _ bitwidth = encode_pair (str value) (str mask) bitwidth

unfoldable pub parse_ternary_str : Str → ℕ → Result (Bytes × Bytes)
unfolding amp_form
parse_ternary_str value bitwidth = amp_form (split_once (codes "/&") value) value bitwidth

-- int(network.netmask), of a network whose addresses have `width` bits
netmask : ℕ → ℕ → ℕ
netmask width prefixlen = all_ones width - all_ones (width - prefixlen)

-- An address alone has a mask of ones; a MAC address alone is refused.
unfoldable pub encode_ternary : TernaryValue → ℕ → Result (Bytes × Bytes)
unfolding netmask
encode_ternary (exact (int n)) bitwidth =
    encode_pair (int n) (int (pos (all_ones bitwidth))) bitwidth
encode_ternary (exact (str s)) bitwidth = parse_ternary_str s bitwidth
encode_ternary (exact (ipv4 n)) bitwidth =
    encode_pair (int (pos n)) (int (pos (all_ones bitwidth))) bitwidth
encode_ternary (exact (ipv6 n)) bitwidth =
    encode_pair (int (pos n)) (int (pos (all_ones bitwidth))) bitwidth
encode_ternary (exact (mac a)) bitwidth = err value_error
encode_ternary (pair value mask) bitwidth = encode_pair value mask bitwidth
encode_ternary (ipv4_network n prefixlen) bitwidth =
    encode_pair (int (pos n)) (int (pos (netmask 32 prefixlen))) bitwidth
encode_ternary (ipv6_network n prefixlen) bitwidth =
    encode_pair (int (pos n)) (int (pos (netmask 128 prefixlen))) bitwidth

unfoldable pub decode_pair : Bytes → Bytes → ℕ → DecodeFormat → Result (ExactValue × ExactValue)
decode_pair a b bitwidth format = do
  first ← decode_exact a bitwidth format
  second ← decode_exact b bitwidth format
  ok (first, second)

-- f"{value}" of what `decode_exact` returns with STRING, which is a text
shown : ExactValue → Result Str
shown = as_text

-- A mask that is a prefix is written as one, and a whole prefix not at all.
prefix_text : ℤ → Bytes → Bytes → ℕ → DecodeFormat → Result TernaryValue
unfolding shown
prefix_text (pos prefix) bytes mask bitwidth format = do
  value ← decode_exact bytes bitwidth format
  text ← shown value
  if prefix == bitwidth
      then ok (exact value)
      else ok (exact (str (text ++ (codes "/" ++ decimal prefix))))
prefix_text (negsuc _) bytes mask bitwidth format = do
  (value, bits) ← decode_pair bytes mask bitwidth format
  text ← shown value
  mask_text ← shown bits
  ok (exact (str (text ++ (codes "/&" ++ mask_text))))

unfoldable pub decode_ternary : Bytes → Bytes → ℕ → DecodeFormat → Result TernaryValue
unfolding prefix_text
decode_ternary bytes mask bitwidth hint =
    if hint.as_string
    then prefix_text (mask_to_prefix (from_bytes mask) bitwidth) bytes mask bitwidth hint
    else (do (value, bits) ← decode_pair bytes mask bitwidth hint; ok (pair value bits))

ternary_text : TernaryValue → Result Str
ternary_text (exact value) = as_text value
ternary_text _ = err assertion_error

unfoldable pub format_ternary : TernaryValue → ℕ → DecodeFormat → Result Str
unfolding ternary_text
format_ternary value bitwidth format = do
  (bytes, mask) ← encode_ternary value bitwidth
  result ← decode_ternary bytes mask bitwidth (with_string format)
  ternary_text result
