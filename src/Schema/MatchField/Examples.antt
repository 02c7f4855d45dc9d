-- ===== src/Schema/MatchField/Examples.antt =====
-- Runs of match fields, and the witness of their property.
use finsy.Prelude.{◌≡◌, refl, arith, some, [], ◌∷◌, codes}
use finsy.Prelude.{ok}
use finsy.Prelude.Int.{pos}
use finsy.Bytes.{to_bytes, be_bytes, lstrip, from_bytes_after}
use finsy.Values.Masks.{p4r_minimum_string_size, p4r_truncate, and_int, all_ones}
use finsy.Values.Exact.{int, encode_masked, encode_number, exact_int, in_width, apply_mask}
use finsy.Values.Lpm.{encode_lpm, encode_prefixed}
use finsy.Schema.MatchField.{
  MatchField, FieldValue, FieldMatch, lpm, lpm_match, pair, text, encode_field, decode_field,
  encode_match, as_lpm, with_id, unless_any,
}
use finsy.Schema.MatchField.RoundTrip.{encode_field-decode_field}

abbrev destination : MatchField
destination = record {
  id = 1;
  name = codes "hdr.ipv4.dst";
  bitwidth = 32;
  match_type = lpm;
  annotations = record { name = codes "format"; body = text (codes "IPV4_ADDRESS") } ∷ [];
}

abbrev message : FieldMatch
message = record { field_id = 1; match = lpm_match (10 ∷ 0 ∷ 0 ∷ 0 ∷ []) 8 }

abbrev private_network : FieldValue
private_network = pair (int (pos 167772161)) (int (pos 8))

-- 10.0.0.1/8 loses its last bits.
encode_field_run : encode_field destination private_network ≡ ok (some message)
unfolding encode_field encode_match as_lpm with_id unless_any encode_lpm encode_prefixed
    encode_masked encode_number exact_int in_width apply_mask to_bytes be_bytes lstrip
    p4r_minimum_string_size p4r_truncate from_bytes_after and_int all_ones
encode_field_run = refl

encode_field-decode_field_example :
    (v : FieldValue) × (decode_field destination message ≡ ok v)
    × (encode_field destination v ≡ ok (some message))
encode_field-decode_field_example =
    encode_field-decode_field destination private_network (omega arith) tt encode_field_run
