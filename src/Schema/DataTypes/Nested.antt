-- ===== src/Schema/DataTypes/Nested.antt =====
-- finsy/p4schema.py: the types that hold types (P4TupleType, P4StructType, P4NewType), the stacks,
-- P4SerializableEnumType, and `encode_data` and `decode_data` of them all.
use finsy.Prelude.{ℕ, suc, List, [], ◌∷◌, Str, Bytes, leb, ◌==◌, if◌then◌else◌}
use finsy.Prelude.{Result, ok, err, value_error, assertion_error, type_error}
use finsy.Prelude.{◌>>=◌, ◌>>◌, guard}
use finsy.Prelude.Int.{ℤ, pos, negsuc}
use finsy.Utf8
use finsy.Values.Exact.{int, str, default_format, decode_exact}
use finsy.Values.Signed.{encode_enum, decode_enum}
use finsy.Schema.DataTypes.Messages.{
  P4Data, bitstring, enum_value, varbit, bool, tuple, struct, header, header_union, header_stack,
  header_union_stack, Datas, data_end, more_data, count_data, get_bitstring, get_enum_value,
  get_varbit, get_bool, get_tuple, get_struct, get_header, get_header_union, get_header_stack,
  get_header_union_stack, has_bitstring,
}
use finsy.Schema.DataTypes.{
  Value, exact, flag, bytes, null, sequence, dict, Items, nil, cons, Fields, end, count_items,
  count, put, as_dict, as_sequence, required, P4Header, P4HeaderUnion, as_integer, encode_any,
  BitsType, encode_bytes, decode_bytes, HeaderType, HeaderUnionType, encode_header, decode_header,
  encode_union, decode_union,
}

mutual
  -- P4Type
  pub data P4Type : Type 0 where
    bits_type : BitsType → P4Type
    bool_type : P4Type
    tuple_type : Types → P4Type
    struct_type : Members → P4Type
    header_type : HeaderType → P4Type
    header_union_type : HeaderUnionType → P4Type
    header_stack_type : HeaderType → ℕ → P4Type
    header_union_stack_type : HeaderUnionType → ℕ → P4Type
    new_type : P4NewType → P4Type
    serializable_enum_type : ℕ → P4Type

  -- P4NewTypeKind, with what each kind holds
  pub data P4NewType : Type 0 where
    original_type : P4Type → P4NewType
    sdn_bitwidth : ℕ → P4NewType
    sdn_string : P4NewType

  pub data Types : Type 0 where
    tuple_end : Types
    more_types : P4Type → Types → Types

  pub data Members : Type 0 where
    struct_end : Members
    member : Str → P4Type → Members → Members

abbrev pub count_types : Types → ℕ
count_types tuple_end = 0
count_types (more_types t ts) = suc (count_types ts)

abbrev pub count_members : Members → ℕ
count_members struct_end = 0
count_members (member key t ms) = suc (count_members ms)

-- A width that is not above the most is the value's own; `1 << width` is a ValueError below 0.
unfoldable pub encode_sized : Value → ℤ → ℕ → Result P4Data
encode_sized value (pos w) most = do
  guard (leb w most) value_error
  bs ← encode_any value w
  ok (varbit bs w)
encode_sized null (negsuc w) most = err assertion_error
encode_sized value (negsuc w) most = err value_error

-- `val, bitwidth = value`
unfoldable pub encode_varbit : Value → ℕ → Result P4Data
unfolding encode_sized
encode_varbit (sequence (cons value (cons width nil))) most = do
  w ← as_integer width
  encode_sized value w most
encode_varbit _ most = err value_error

unfoldable pub encode_bits : BitsType → Value → Result P4Data
unfolding encode_varbit
encode_bits typ value =
    if typ.varbit
    then encode_varbit value typ.bitwidth
    else (do bs ← encode_bytes typ value; ok (bitstring bs))

decode_varbit : BitsType → Bytes × ℕ → Result Value
decode_varbit typ (bs, w) = do
  v ← decode_bytes typ bs
  ok (sequence (cons v (cons (exact (int (pos w))) nil)))

unfoldable pub decode_bits : BitsType → P4Data → Result Value
unfolding decode_varbit
decode_bits typ message =
    if typ.varbit
    then decode_varbit typ (get_varbit message)
    else decode_bytes typ (get_bitstring message)

unfoldable pub encode_bool : Value → Result P4Data
encode_bool (flag b) = ok (bool b)
encode_bool _ = err type_error

unfoldable pub encode_headers : HeaderType → Items → Result (List P4Header)
encode_headers typ nil = ok []
encode_headers typ (cons v vs) =
    let rest = encode_headers typ vs in
    (do first ← encode_header typ v; others ← rest; ok (first ∷ others))

unfoldable pub encode_unions : HeaderUnionType → Items → Result (List P4HeaderUnion)
encode_unions typ nil = ok []
encode_unions typ (cons v vs) =
    let rest = encode_unions typ vs in
    (do first ← encode_union typ v; others ← rest; ok (first ∷ others))

unfoldable pub decode_headers : HeaderType → List P4Header → Result Items
decode_headers typ [] = ok nil
decode_headers typ (h ∷ hs) =
    let rest = decode_headers typ hs in
    (do first ← decode_header typ h; others ← rest; ok (cons (dict first) others))

unfoldable pub decode_unions : HeaderUnionType → List P4HeaderUnion → Result Items
decode_unions typ [] = ok nil
decode_unions typ (u ∷ us) =
    let rest = decode_unions typ us in
    (do first ← decode_union typ u; others ← rest; ok (cons (dict first) others))

unfoldable pub encode_sdn_string : Value → Result Bytes
encode_sdn_string (exact (str s)) = Utf8.encode s
encode_sdn_string (bytes bs) = ok bs
encode_sdn_string _ = err assertion_error

unfoldable mutual
  unfolding encode_bool encode_sdn_string

  pub encode_data : P4Type → Value → Result P4Data
  encode_data (bits_type typ) value = encode_bits typ value
  encode_data bool_type value = encode_bool value
  encode_data (tuple_type types) value = do
    items ← as_sequence value
    guard (count_items items == count_types types) value_error
    ds ← encode_items types items
    ok (tuple ds)
  encode_data (struct_type members) value = do
    fields ← as_dict value
    ds ← encode_members members fields
    guard (leb (count fields) (count_data ds)) value_error
    ok (struct ds)
  encode_data (header_type typ) value = do h ← encode_header typ value; ok (header h)
  encode_data (header_union_type typ) value = do u ← encode_union typ value; ok (header_union u)
  encode_data (header_stack_type typ size) value = do
    items ← as_sequence value
    guard (count_items items == size) value_error
    hs ← encode_headers typ items
    ok (header_stack hs)
  encode_data (header_union_stack_type typ size) value = do
    items ← as_sequence value
    guard (count_items items == size) value_error
    us ← encode_unions typ items
    ok (header_union_stack us)
  encode_data (new_type (original_type typ)) value = encode_data typ value
  encode_data (new_type (sdn_bitwidth w)) value = do bs ← encode_any value w; ok (bitstring bs)
  encode_data (new_type sdn_string) value = do bs ← encode_sdn_string value; ok (bitstring bs)
  encode_data (serializable_enum_type w) value = do
    n ← as_integer value
    bs ← encode_enum n w
    ok (enum_value bs)

  pub encode_items : Types → Items → Result Datas
  encode_items tuple_end items = ok data_end
  encode_items (more_types typ types) nil = err value_error
  encode_items (more_types typ types) (cons v items) =
      let rest = encode_items types items in
      (do first ← encode_data typ v; others ← rest; ok (more_data first others))

  pub encode_members : Members → Fields → Result Datas
  encode_members struct_end value = ok data_end
  encode_members (member key typ members) value =
      let rest = encode_members members value in
      (do
        v ← required key value
        first ← encode_data typ v
        others ← rest
        ok (more_data first others))

unfoldable mutual
  unfolding has_bitstring

  pub decode_data : P4Type → P4Data → Result Value
  decode_data (bits_type typ) message = decode_bits typ message
  decode_data bool_type message = ok (flag (get_bool message))
  decode_data (tuple_type types) message = do
    guard (count_data (get_tuple message) == count_types types) value_error
    items ← decode_items types (get_tuple message)
    ok (sequence items)
  decode_data (struct_type members) message = do
    guard (count_data (get_struct message) == count_members members) value_error
    fields ← decode_members members (get_struct message) end
    ok (dict fields)
  decode_data (header_type typ) message = do
    fields ← decode_header typ (get_header message)
    ok (dict fields)
  decode_data (header_union_type typ) message = do
    fields ← decode_union typ (get_header_union message)
    ok (dict fields)
  decode_data (header_stack_type typ size) message = do
    items ← decode_headers typ (get_header_stack message)
    ok (sequence items)
  decode_data (header_union_stack_type typ size) message = do
    items ← decode_unions typ (get_header_union_stack message)
    ok (sequence items)
  decode_data (new_type (original_type typ)) message = decode_data typ message
  decode_data (new_type (sdn_bitwidth w)) message = do
    guard (has_bitstring message) assertion_error
    v ← decode_exact (get_bitstring message) w default_format
    ok (exact v)
  decode_data (new_type sdn_string) message = do
    guard (has_bitstring message) assertion_error
    s ← Utf8.decode (get_bitstring message)
    ok (exact (str s))
  decode_data (serializable_enum_type w) message = do
    n ← decode_enum (get_enum_value message) w
    ok (exact (int (pos n)))

  pub decode_items : Types → Datas → Result Items
  decode_items tuple_end ds = ok nil
  decode_items (more_types typ types) data_end = err value_error
  decode_items (more_types typ types) (more_data d ds) =
      let rest = decode_items types ds in
      (do first ← decode_data typ d; others ← rest; ok (cons first others))

  -- The loop of `P4StructType.decode_data`, over both lists at once.
  pub decode_members : Members → Datas → Fields → Result Fields
  decode_members struct_end ds result = ok result
  decode_members (member key typ members) data_end result = err value_error
  decode_members (member key typ members) (more_data d ds) result = do
    v ← decode_data typ d
    decode_members members ds (put key v result)
