-- ===== src/Values/Range.antt =====
-- finsy/p4values.py: range values.
use finsy.Prelude.{ℕ, Option, none, some, ◌++◌, Str, Bytes, codes}
use finsy.Prelude.{Result, ok, err, value_error, assertion_error, ◌>>=◌}
use finsy.Values.Exact.{DecodeFormat, with_string, ExactValue, str, as_text}
use finsy.Text.{split_once}
use finsy.Values.Ternary.{encode_pair, decode_pair}

-- _RangeValue and _RangeReturn
pub data RangeValue : Type 0 where
  text : Str → RangeValue
  bounds : ExactValue → ExactValue → RangeValue

-- `low, high = val.split("...", 1)` wants two parts: ValueError.
dots_form : Option (Str × Str) → ℕ → Result (Bytes × Bytes)
dots_form none bitwidth = err value_error
dots_form (some (low, high)) bitwidth = encode_pair (str low) (str high) bitwidth

unfoldable pub encode_range : RangeValue → ℕ → Result (Bytes × Bytes)
unfolding dots_form
encode_range (text value) bitwidth = dots_form (split_once (codes "...") value) bitwidth
encode_range (bounds low high) bitwidth = encode_pair low high bitwidth

unfoldable pub range_result : ExactValue → ExactValue → Result RangeValue
range_result (str low) high = do
  high_text ← as_text high
  ok (text (low ++ (codes "..." ++ high_text)))
range_result low high = ok (bounds low high)

unfoldable pub decode_range : Bytes → Bytes → ℕ → DecodeFormat → Result RangeValue
unfolding range_result
decode_range low high bitwidth hint = do
  (low_value, high_value) ← decode_pair low high bitwidth hint
  range_result low_value high_value

range_text : RangeValue → Result Str
range_text (text s) = ok s
range_text (bounds low high) = err assertion_error

unfoldable pub format_range : RangeValue → ℕ → DecodeFormat → Result Str
unfolding range_text
format_range value bitwidth format = do
  (low, high) ← encode_range value bitwidth
  result ← decode_range low high bitwidth (with_string format)
  range_text result
