-- ===== src/Schema/DataTypes/Examples.antt =====
-- Runs of the data types' codecs, and the witnesses of their properties.
use finsy.Prelude.{arith, ℕ, true, false, ◌≡◌, refl, [], ◌∷◌, codes}
use finsy.Prelude.{ok}
use finsy.Prelude.Int.{pos, negsuc}
use finsy.Values.Exact.{int}
use finsy.Schema.DataTypes.{
  Value, exact, flag, sequence, dict, nil, cons, end, field, BitsType, HeaderType,
}
use finsy.Schema.DataTypes.Nested.{
  P4Type, bits_type, bool_type, tuple_type, struct_type, header_stack_type, serializable_enum_type,
  tuple_end, more_types, struct_end, member, encode_data,
}
use finsy.Schema.DataTypes.Messages.{
  P4Data, bitstring, enum_value, bool, tuple, struct, header_stack, data_end, more_data,
}
use finsy.Bytes.{to_bytes, to_bytes_signed, be_bytes, lstrip, from_bytes_after}
use finsy.Values.Masks.{p4r_minimum_string_size, p4r_truncate, p4r_truncate_signed}
use finsy.Values.Exact.{encode_masked, encode_number, exact_int, in_width, apply_mask}
use finsy.Values.Signed.{encode_signed, encode_enum}
use finsy.Schema.DataTypes.{as_integer, encode_any, encode_bytes, encode_bitstrings, encode_header}
use finsy.Schema.DataTypes.Nested.{encode_bits, encode_headers, decode_data}
use finsy.Schema.DataTypes.Codable.{IsCodable}
use finsy.Schema.DataTypes.RoundTrip.{encode_data-decode_data}
use finsy.Schema.DataTypes.Typed.{HasType}
use finsy.Schema.DataTypes.Typed.Encoded.{encode_data-HasType}

abbrev unsigned : ℕ → BitsType
unsigned w = record { bitwidth = w; signed = false; varbit = false }

abbrev signed_byte : BitsType
signed_byte = record { bitwidth = 8; signed = true; varbit = false }

abbrev ethernet : HeaderType
ethernet = (codes "dst", unsigned 48) ∷ (codes "type", unsigned 16) ∷ []

abbrev packet : P4Type
packet = struct_type (
    member (codes "on") bool_type (
      member (codes "pair")
        (tuple_type
          (more_types (bits_type signed_byte) (more_types (serializable_enum_type 4) tuple_end)))
        (member (codes "headers") (header_stack_type ethernet 2) struct_end)))

-- The keys are in another order than the members.
abbrev given : Value
given = dict (
    field (codes "headers")
      (sequence (
        cons
          (dict (
            field (codes "type") (exact (int (pos 2048)))
              (field (codes "dst") (exact (int (pos 258))) end)))
          (cons (dict end) nil)))
      (field (codes "on") (flag true) (
        field (codes "pair")
          (sequence (cons (exact (int (negsuc 1))) (cons (exact (int (pos 9))) nil))) end)))

abbrev encoded : P4Data
encoded = struct (
    more_data (bool true) (
      more_data
        (tuple (more_data (bitstring (254 ∷ [])) (more_data (enum_value (9 ∷ [])) data_end)))
        (more_data
          (header_stack (
            record { is_valid = true; bitstrings = (1 ∷ 2 ∷ []) ∷ (8 ∷ 0 ∷ []) ∷ [] }
            ∷ record { is_valid = false; bitstrings = [] }
            ∷ []))
          data_end)))

encode_data_run : encode_data packet given ≡ ok encoded
unfolding encode_data encode_bits encode_bytes as_integer encode_any encode_headers encode_header
    encode_bitstrings encode_signed encode_enum encode_masked encode_number exact_int in_width
    apply_mask to_bytes to_bytes_signed be_bytes lstrip p4r_minimum_string_size p4r_truncate
    p4r_truncate_signed from_bytes_after
encode_data_run = refl

packet-IsCodable : IsCodable packet
unfolding IsCodable
packet-IsCodable = ground arith

encode_data-decode_data_example :
    (v : Value) × (decode_data packet encoded ≡ ok v) × (encode_data packet v ≡ ok encoded)
encode_data-decode_data_example =
    encode_data-decode_data packet given packet-IsCodable encode_data_run

encode_data-HasType_example : HasType packet encoded
encode_data-HasType_example = encode_data-HasType packet given encode_data_run
