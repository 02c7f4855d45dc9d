-- ===== src/Schema/DataTypes.antt =====
-- finsy/p4schema.py: P4BitsType, P4HeaderType, P4HeaderUnionType, and the Python values and the
-- P4Data messages that all the data types share.
pub mod Messages
pub mod Nested
pub mod Lookup
pub mod Headers
pub mod Unions
pub mod Codable
pub mod RoundTrip
pub mod Typed
mod Examples
use finsy.Prelude.{
  ℕ, zero, suc, Bool, true, false, Option, none, some, List, [], ◌∷◌, Str, Bytes, length, str_eq,
  leb, ◌==◌, if◌then◌else◌,
}
use finsy.Prelude.{Result, ok, err, value_error, assertion_error, type_error, key_error}
use finsy.Prelude.{◌>>=◌, ◌>>◌, guard}
use finsy.Prelude.Int.{ℤ, pos, negsuc}
use finsy.Values.Exact.{ExactValue, int, default_format, encode_exact, decode_exact}
use finsy.Values.Signed.{encode_signed, decode_signed}

-- A Python object that is encoded or decoded, `Any` in the source: a number, a text or an address,
-- a flag, a byte string, None, a list or a tuple, a dict in the order of its insertions.
mutual
  pub data Value : Type 0 where
    exact : ExactValue → Value
    flag : Bool → Value
    bytes : Bytes → Value
    null : Value
    sequence : Items → Value
    dict : Fields → Value

  pub data Items : Type 0 where
    nil : Items
    cons : Value → Items → Items

  pub data Fields : Type 0 where
    end : Fields
    field : Str → Value → Fields → Fields

-- len(value)
abbrev pub count_items : Items → ℕ
count_items nil = 0
count_items (cons v vs) = suc (count_items vs)

abbrev pub count : Fields → ℕ
count end = 0
count (field key v fields) = suc (count fields)

-- value.get(key)
abbrev pub lookup : Str → Fields → Option Value
lookup key end = none
lookup key (field k v fields) = if str_eq key k then some v else lookup key fields

-- result[key] = v
abbrev pub put : Str → Value → Fields → Fields
put key v end = field key v end
put key v (field k w fields) =
    if str_eq key k then field k v fields else field k w (put key v fields)

-- A value that is not of the annotated type has no such operation: TypeError.
abbrev pub as_dict : Value → Result Fields
as_dict (dict fields) = ok fields
as_dict _ = err type_error

abbrev pub as_sequence : Value → Result Items
as_sequence (sequence items) = ok items
as_sequence _ = err type_error

-- `value[key]` under a `try` that makes a ValueError of its KeyError.
abbrev pub required : Str → Fields → Result Value
required key fields = elim (lookup key fields) [ none ↦ err value_error | some v ↦ ok v ]

-- p4d.P4Header and p4d.P4HeaderUnion
pub record P4Header : Type 0 where
  pub is_valid : Bool
  pub bitstrings : List Bytes

pub record P4HeaderUnion : Type 0 where
  pub valid_header_name : Str
  pub valid_header : P4Header

-- A flag is an `int` too.
unfoldable pub as_integer : Value → Result ℤ
as_integer (exact (int n)) = ok n
as_integer (flag true) = ok (pos 1)
as_integer (flag false) = ok (pos 0)
as_integer _ = err type_error

-- `encode_exact` of any object
unfoldable pub encode_any : Value → ℕ → Result Bytes
encode_any (exact v) bitwidth = encode_exact v bitwidth
encode_any (flag true) bitwidth = encode_exact (int (pos 1)) bitwidth
encode_any (flag false) bitwidth = encode_exact (int (pos 0)) bitwidth
encode_any null bitwidth = err assertion_error
encode_any _ bitwidth = err value_error

-- P4BitsType
pub record BitsType : Type 0 where
  pub bitwidth : ℕ
  pub signed : Bool
  pub varbit : Bool

-- The `type_spec` of p4t.P4BitstringLikeTypeSpec
pub data BitstringSpec : Type 0 where
  bit_spec int_spec varbit_spec : ℕ → BitstringSpec
  no_spec : BitstringSpec

unfoldable pub bits_type : BitstringSpec → Result BitsType
bits_type (bit_spec w) = ok (record { bitwidth = w; signed = false; varbit = false })
bits_type (int_spec w) = ok (record { bitwidth = w; signed = true; varbit = false })
bits_type (varbit_spec w) = ok (record { bitwidth = w; signed = false; varbit = true })
bits_type no_spec = err value_error

unfoldable pub encode_bytes : BitsType → Value → Result Bytes
unfolding as_integer encode_any
encode_bytes typ value =
    if typ.signed
    then (do n ← as_integer value; encode_signed n typ.bitwidth)
    else encode_any value typ.bitwidth

unfoldable pub decode_bytes : BitsType → Bytes → Result Value
decode_bytes typ data_bytes =
    if typ.signed
    then ok (exact (int (decode_signed data_bytes typ.bitwidth)))
    else (do v ← decode_exact data_bytes typ.bitwidth default_format; ok (exact v))

-- P4HeaderType and P4HeaderUnionType: their members in order.
abbrev pub HeaderType : Type 0
HeaderType = List (Str × BitsType)

abbrev pub HeaderUnionType : Type 0
HeaderUnionType = List (Str × HeaderType)

-- `not value`
abbrev pub is_falsy : Value → Bool
is_falsy (exact (int (pos zero))) = true
is_falsy (exact (ExactValue.str [])) = true
is_falsy (exact _) = false
is_falsy (flag true) = false
is_falsy (flag false) = true
is_falsy (bytes []) = true
is_falsy (bytes (b ∷ bs)) = false
is_falsy null = true
is_falsy (sequence nil) = true
is_falsy (sequence (cons v vs)) = false
is_falsy (dict end) = true
is_falsy (dict (field key v fields)) = false

unfoldable pub encode_bitstrings : HeaderType → Fields → Result (List Bytes)
encode_bitstrings [] value = ok []
encode_bitstrings ((key, typ) ∷ members) value =
    let rest = encode_bitstrings members value in
    (do v ← required key value; first ← encode_bytes typ v; others ← rest; ok (first ∷ others))

unfoldable pub encode_header : HeaderType → Value → Result P4Header
unfolding encode_bitstrings
encode_header members value =
    if is_falsy value then ok (record { is_valid = false; bitstrings = [] }) else (do
      fields ← as_dict value
      strings ← encode_bitstrings members fields
      guard (leb (count fields) (length strings)) value_error
      ok (record { is_valid = true; bitstrings = strings }))

-- The loop of `decode_header`, over both lists at once.
unfoldable pub decode_bitstrings : HeaderType → List Bytes → Fields → Result Fields
decode_bitstrings [] strings result = ok result
decode_bitstrings ((key, typ) ∷ members) [] result = err value_error
decode_bitstrings ((key, typ) ∷ members) (first ∷ strings) result = do
  v ← decode_bytes typ first
  decode_bitstrings members strings (put key v result)

unfoldable pub decode_header : HeaderType → P4Header → Result Fields
unfolding decode_bitstrings
decode_header members header =
    if header.is_valid
    then (guard (length header.bitstrings == length members) value_error
        >> decode_bitstrings members header.bitstrings end)
    else (guard (length header.bitstrings == 0) value_error >> ok end)

-- self.members[name]
abbrev pub find_member : Str → HeaderUnionType → Option HeaderType
find_member name [] = none
find_member name ((k, header) ∷ members) =
    if str_eq name k then some header else find_member name members

unfoldable pub encode_fields : HeaderUnionType → Fields → Result P4HeaderUnion
encode_fields members end =
    ok (record {
      valid_header_name = [];
      valid_header = record { is_valid = false; bitstrings = [] };
    })
encode_fields members (field name header end) = elim (find_member name members) [
  | none ↦ err value_error
  | some header_type ↦ do
    encoded ← encode_header header_type header
    ok (record { valid_header_name = name; valid_header = encoded })
]
encode_fields members (field name header (field k v fields)) = err value_error

unfoldable pub encode_union : HeaderUnionType → Value → Result P4HeaderUnion
unfolding encode_fields
encode_union members value = do fields ← as_dict value; encode_fields members fields

unfoldable pub decode_named : HeaderUnionType → Str → P4Header → Result Fields
decode_named members name header = elim (find_member name members) [
  | none ↦ err key_error
  | some header_type ↦ do
    fields ← decode_header header_type header
    ok (field name (dict fields) end)
]

-- An empty name is that of no header.
unfoldable pub decode_union : HeaderUnionType → P4HeaderUnion → Result Fields
unfolding decode_named
decode_union members union = elim union.valid_header_name [
  | [] ↦ ok end
  | c ∷ cs ↦ decode_named members (c ∷ cs) union.valid_header
]
