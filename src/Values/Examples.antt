-- ===== src/Values/Examples.antt =====
-- Runs of the value codecs, and their theorems at concrete values.
use finsy.Prelude.{ℕ, ◌%◌, ◌^◌, ◌<◌, ◌≤◌, ◌≡◌, ◌↔◌, refl, arith, [], ◌∷◌, Bytes, Str, codes}
use finsy.Prelude.{ok, false}
use finsy.Prelude.Int.{pos, negsuc}
use finsy.Values.Ternary.{encode_pair, decode_pair}
use finsy.Values.Exact.{
  encode_masked, encode_number, exact_int, parse_exact_str, parse_stripped, in_width, apply_mask,
  decode_exact, decode_number, present, as_text,
}
use finsy.Text.{split_once, remove_prefix?}
use finsy.Text.Number.{parse_int, signed, hex, decimal, hex02, is_int_space}
use finsy.Values.Masks.{and_int}
use finsy.Values.Lpm.{check_prefix, encode_prefixed, parse_lpm_str, lpm_result, slash_prefix}
use finsy.Bits.{bit_length}
use finsy.Bytes.{be_bytes, to_bytes, from_bytes_after, lstrip, from_bytes_signed}
use finsy.Text.{contains, split, strip_by, is_space}
use finsy.Text.Number.{digits_after, digit_value}
use finsy.IpAddress.{ipv4_from_text}
use finsy.Values.Masks.{
  p4r_truncate, p4r_truncate_signed, p4r_minimum_string_size, mask_to_prefix, all_ones,
}
use finsy.Values.Masks.Laws.{mask_to_prefix_iff, prefix_mask}
use finsy.Values.Masks.Truncate.{from_bytes_signed-p4r_truncate_signed}
use finsy.Values.Exact.{
  ExactValue, int, str, default_format, exact_int, parse_exact_str, parse_stripped, in_width,
  apply_mask, encode_exact, encode_masked, encode_number, decode_exact, decode_number, present,
  format_exact,
}
use finsy.Values.Exact.Laws.{decode_exact-encode_exact, encode_exact-decode_exact, exact_int-int}
use finsy.Values.Exact.Texts.{encode_exact-format_exact}
use finsy.Values.Signed.{encode_signed, decode_signed}
use finsy.Values.Signed.Laws.{decode_signed-encode_signed}
use finsy.Values.Range
use finsy.Values.Range.{encode_range, decode_range, format_range}
use finsy.Values.Lpm.{format_lpm, pair, encode_lpm, decode_lpm}
use finsy.Values.Lpm.Laws.{decode_lpm-encode_lpm, cleared}
use finsy.Values.Ternary
use finsy.Values.Ternary.{format_ternary, encode_ternary, decode_ternary}
use finsy.Values.Ternary.RoundTrip.{ternary_text_round_trip, IsMasked, text_format}

-- 10.0.0.1 as a text and as an address.
abbrev localnet : ExactValue
localnet = str (codes "10.0.0.1")

exact_text : encode_exact localnet 32 ≡ ok (10 ∷ 0 ∷ 0 ∷ 1 ∷ [])
unfolding encode_masked encode_number exact_int parse_exact_str parse_stripped in_width apply_mask
    to_bytes be_bytes lstrip p4r_truncate p4r_minimum_string_size ipv4_from_text contains split
    strip_by is_space digits_after digit_value from_bytes_after
exact_text = refl

exact_small : encode_exact (int (pos 1)) 32 ≡ ok (1 ∷ [])
unfolding encode_masked encode_number exact_int in_width apply_mask to_bytes be_bytes lstrip
    p4r_truncate p4r_minimum_string_size
exact_small = refl

decode_exact-encode_exact_example :
    (n : ℕ) × (exact_int localnet 32 ≡ ok (pos n))
    × (n < 2 ^ 32)
    × (decode_exact (10 ∷ 0 ∷ 0 ∷ 1 ∷ []) 32 default_format ≡ ok (present n 32 default_format))
decode_exact-encode_exact_example =
    decode_exact-encode_exact localnet 32 default_format (omega arith) exact_text

decoded : decode_exact (0 ∷ 10 ∷ []) 32 default_format ≡ ok (int (pos 10))
unfolding decode_exact decode_number present from_bytes_after
decoded = refl

encode_exact-decode_exact_example : encode_exact (int (pos 10)) 32 ≡ ok (p4r_truncate (0 ∷ 10 ∷ []))
encode_exact-decode_exact_example =
    encode_exact-decode_exact (0 ∷ 10 ∷ []) 32 false (omega arith) (omega arith) decoded

encode_exact-format_exact_example :
    (t : Str) × (format_exact localnet 32 default_format ≡ ok t)
    × (encode_exact (str t) 32 ≡ ok (10 ∷ 0 ∷ 0 ∷ 1 ∷ []))
encode_exact-format_exact_example = encode_exact-format_exact localnet 32 (omega arith) exact_text

mask_to_prefix_iff_example :
    (mask_to_prefix 0xFFFFFF00 32 ≡ pos 24)
    ↔ ((24 ≤ 32) × (0xFFFFFF00 % 2 ^ 32 ≡ prefix_mask 32 24))
mask_to_prefix_iff_example = mask_to_prefix_iff 0xFFFFFF00 32 24

mask_with_gap : mask_to_prefix 0xFF00FF00 32 ≡ negsuc 0
unfolding mask_to_prefix all_ones bit_length
mask_with_gap = refl

from_bytes_signed-p4r_truncate_signed_example :
    (s : Bytes) × (p4r_truncate_signed (0xFF ∷ 0xFF ∷ 0x7F ∷ []) ≡ ok s)
    × (from_bytes_signed s ≡ from_bytes_signed (0xFF ∷ 0xFF ∷ 0x7F ∷ []))
from_bytes_signed-p4r_truncate_signed_example =
    from_bytes_signed-p4r_truncate_signed 0xFF (0xFF ∷ 0x7F ∷ []) (omega arith)

decode_signed-encode_signed_example :
    ((s : Bytes) × (encode_signed (pos 127) 8 ≡ ok s) × (decode_signed s 8 ≡ pos 127))
    × ((s : Bytes) × (encode_signed (negsuc 127) 8 ≡ ok s) × (decode_signed s 8 ≡ negsuc 127))
decode_signed-encode_signed_example = decode_signed-encode_signed 7 127 (omega arith)

decode_lpm-encode_lpm_example :
    (bs : Bytes) × (encode_lpm (pair (int (pos 0x0A0B0C0D)) (pos 24)) 32 ≡ ok (bs, 24))
    × (decode_lpm bs 24 32 default_format
        ≡ ok (pair (int (pos (cleared 0x0A0B0C0D 32 24))) (pos 24)))
decode_lpm-encode_lpm_example =
    decode_lpm-encode_lpm (int (pos 0x0A0B0C0D)) 32 0x0A0B0C0D 24 (omega arith)
      (exact_int-int (pos 0x0A0B0C0D) 32) (omega arith) (omega arith)

-- 10.0.0.0/8, whose mask is of 8 ones.
eight_of_32 : mask_to_prefix 0xFF000000 32 ≡ pos 8
unfolding mask_to_prefix all_ones bit_length
eight_of_32 = refl

ten_slash_eight : IsMasked 0x0A000000 0xFF000000 32
ten_slash_eight p e = let same : 8 ≡ p = ground (arith, eight_of_32) in rw (← same) refl

ternary_text_round_trip_example :
    (x y : Bytes) × (t : Str) × (encode_ternary
        (Ternary.pair (int (pos 0x0A000000)) (int (pos 0xFF000000)))
        32
      ≡ ok (x, y))
    × (decode_ternary x y 32 text_format ≡ ok (Ternary.exact (str t)))
    × (encode_ternary (Ternary.exact (str t)) 32 ≡ ok (x, y))
ternary_text_round_trip_example =
    ternary_text_round_trip 0x0A000000 0xFF000000 32 (omega arith) (omega arith) (omega arith)
      ten_slash_eight

-- 1...9
abbrev one_to_nine : Range.RangeValue
one_to_nine = Range.bounds (int (pos 1)) (int (pos 9))

range_encoded : encode_range (Range.text (codes "1...9")) 16 ≡ ok (1 ∷ [], 9 ∷ [])
unfolding encode_range encode_pair decode_pair encode_masked encode_number exact_int parse_exact_str
    parse_stripped in_width apply_mask to_bytes be_bytes lstrip p4r_truncate p4r_minimum_string_size
    contains split split_once remove_prefix? strip_by is_space digits_after digit_value
    from_bytes_after decode_exact decode_number present as_text parse_int signed hex decimal
    mask_to_prefix all_ones bit_length and_int encode_ternary decode_ternary encode_lpm decode_lpm
    check_prefix encode_prefixed parse_lpm_str lpm_result slash_prefix hex02 is_int_space
range_encoded = refl

range_decoded : decode_range (1 ∷ []) (9 ∷ []) 16 default_format ≡ ok one_to_nine
unfolding decode_range encode_pair decode_pair encode_masked encode_number exact_int parse_exact_str
    parse_stripped in_width apply_mask to_bytes be_bytes lstrip p4r_truncate p4r_minimum_string_size
    contains split split_once remove_prefix? strip_by is_space digits_after digit_value
    from_bytes_after decode_exact decode_number present as_text parse_int signed hex decimal
    mask_to_prefix all_ones bit_length and_int encode_ternary decode_ternary encode_lpm decode_lpm
    check_prefix encode_prefixed parse_lpm_str lpm_result slash_prefix hex02 is_int_space
range_decoded = refl

range_printed : format_range one_to_nine 16 default_format ≡ ok (codes "0x1...0x9")
unfolding format_range encode_range decode_range encode_pair decode_pair encode_masked encode_number
    exact_int parse_exact_str parse_stripped in_width apply_mask to_bytes be_bytes lstrip
    p4r_truncate p4r_minimum_string_size contains split split_once remove_prefix? strip_by is_space
    digits_after digit_value from_bytes_after decode_exact decode_number present as_text parse_int
    signed hex decimal mask_to_prefix all_ones bit_length and_int encode_ternary decode_ternary
    encode_lpm decode_lpm check_prefix encode_prefixed parse_lpm_str lpm_result slash_prefix hex02
    is_int_space
range_printed = refl

lpm_printed :
    format_lpm (pair (int (pos 0x0A000000)) (pos 8)) 32 default_format ≡ ok (codes "0xa000000/8")
unfolding format_lpm encode_pair decode_pair encode_masked encode_number exact_int parse_exact_str
    parse_stripped in_width apply_mask to_bytes be_bytes lstrip p4r_truncate p4r_minimum_string_size
    contains split split_once remove_prefix? strip_by is_space digits_after digit_value
    from_bytes_after decode_exact decode_number present as_text parse_int signed hex decimal
    mask_to_prefix all_ones bit_length and_int encode_ternary decode_ternary encode_lpm decode_lpm
    check_prefix encode_prefixed parse_lpm_str lpm_result slash_prefix hex02 is_int_space
lpm_printed = refl

ternary_printed :
    format_ternary (Ternary.pair (int (pos 1)) (int (pos 5))) 16 default_format
    ≡ ok (codes "0x1/&0x5")
unfolding format_ternary encode_pair decode_pair encode_masked encode_number exact_int
    parse_exact_str parse_stripped in_width apply_mask to_bytes be_bytes lstrip p4r_truncate
    p4r_minimum_string_size contains split split_once remove_prefix? strip_by is_space digits_after
    digit_value from_bytes_after decode_exact decode_number present as_text parse_int signed hex
    decimal mask_to_prefix all_ones bit_length and_int encode_ternary decode_ternary encode_lpm
    decode_lpm check_prefix encode_prefixed parse_lpm_str lpm_result slash_prefix hex02 is_int_space
ternary_printed = refl
