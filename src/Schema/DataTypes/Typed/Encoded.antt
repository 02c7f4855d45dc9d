-- ===== src/Schema/DataTypes/Typed/Encoded.antt =====
-- What is encoded for a data type belongs to it, whatever the value.
use finsy.Prelude.{
  ℕ, ◌≡◌, sym, subst, ◌∙◌, true, List, Bytes, All, length, inl, inr, Bool-cases, leb, ◌==◌, ==_iff,
  if_false,
}
use finsy.Prelude.{arith, ok, value_error, guard, guard_inv, >>=-eq-ok}
use finsy.Prelude.Int.{ℤ, pos, negsuc}
use finsy.Values.Exact.{int}
use finsy.Values.Signed.{encode_enum}
use finsy.Values.Signed.Laws.{enum_codec_exact}
use finsy.Schema.DataTypes.{
  Value, exact, flag, null, sequence, dict, Items, nil, cons, Fields, count_items, count, as_dict,
  as_sequence, required, as_integer, encode_any, BitsType, encode_bytes, HeaderType,
  HeaderUnionType, P4Header, P4HeaderUnion, encode_header, encode_union,
}
use finsy.Schema.DataTypes.Nested.{
  P4Type, bits_type, bool_type, tuple_type, struct_type, header_type, header_union_type,
  header_stack_type, header_union_stack_type, new_type, serializable_enum_type, original_type,
  sdn_bitwidth, sdn_string, Types, tuple_end, more_types, Members, struct_end, member, count_types,
  encode_sized, encode_varbit, encode_bits, encode_bool, encode_headers, encode_unions,
  encode_sdn_string, encode_data, encode_items, encode_members,
}
use finsy.Schema.DataTypes.Messages.{
  P4Data, bitstring, enum_value, varbit, bool, tuple, struct, header, header_union, header_stack,
  header_union_stack, Datas, data_end, more_data, count_data,
}
use finsy.Schema.DataTypes.Headers.{encode_exact_again}
use finsy.Schema.DataTypes.Typed.{
  IsUnsigned, HasHeaderType, HasUnionType, HasType, fixed, variable, flag_bit, in_tuple, in_struct,
  one, union, stack, union_stack, original, sdn_bits, sdn_text, enum_number, HaveTypes, no_types,
  and_types, HaveMembers, no_members, and_members,
}
use finsy.Schema.DataTypes.Typed.Strings.{
  encode_headers-All, encode_unions-All, decode_exact-IsUnsigned, encode_any-IsUnsigned,
  encode_bytes-HasBits, encode_header-HasHeaderType, encode_union-HasUnionType,
}

encode_sized-HasType :
    (typ : BitsType) (v : Value) (w : ℤ) {d : P4Data}
    → typ.varbit ≡ true
    → encode_sized v w typ.bitwidth ≡ ok d
    → HasType (bits_type typ) d
unfolding encode_sized
encode_sized-HasType typ v (pos w) {d} varying e =
    let (_, room, e1) = >>=-eq-ok (guard (leb w typ.bitwidth) value_error) _ e in
    let (bs, encoded, e2) = >>=-eq-ok (encode_any v w) _ e1 in
    let same : d ≡ varbit bs w = ground arith in
    subst (HasType (bits_type typ)) (sym same)
      (variable varying (ground arith) (encode_any-IsUnsigned v w encoded))
encode_sized-HasType typ (exact x) (negsuc w) varying e = cc
encode_sized-HasType typ (flag b) (negsuc w) varying e = cc
encode_sized-HasType typ (Value.bytes bs) (negsuc w) varying e = cc
encode_sized-HasType typ null (negsuc w) varying e = cc
encode_sized-HasType typ (sequence items) (negsuc w) varying e = cc
encode_sized-HasType typ (dict fields) (negsuc w) varying e = cc

encode_varbit-HasType :
    (typ : BitsType) (v : Value) {d : P4Data}
    → typ.varbit ≡ true
    → encode_varbit v typ.bitwidth ≡ ok d
    → HasType (bits_type typ) d
unfolding encode_varbit
encode_varbit-HasType typ (sequence (cons v (cons width nil))) varying e =
    let (w, _, e1) = >>=-eq-ok (as_integer width) _ e in encode_sized-HasType typ v w varying e1
encode_varbit-HasType typ (sequence (cons v (cons width (cons x items)))) varying e = cc
encode_varbit-HasType typ (sequence (cons v nil)) varying e = cc
encode_varbit-HasType typ (sequence nil) varying e = cc
encode_varbit-HasType typ (exact x) varying e = cc
encode_varbit-HasType typ (flag b) varying e = cc
encode_varbit-HasType typ (Value.bytes bs) varying e = cc
encode_varbit-HasType typ null varying e = cc
encode_varbit-HasType typ (dict fields) varying e = cc

encode_bits-HasType :
    (typ : BitsType) (v : Value) {d : P4Data} → encode_bits typ v ≡ ok d → HasType (bits_type typ) d
unfolding encode_bits
encode_bits-HasType typ v {d} e = elim (Bool-cases typ.varbit) [
  | inl varying ↦ encode_varbit-HasType typ v varying (rw varying at e)
  | inr stays ↦
      let (bs, encoded, e1) = >>=-eq-ok (encode_bytes typ v) _ (sym (if_false _ _ stays) ∙ e) in
      let same : d ≡ bitstring bs = ground arith in
      subst (HasType (bits_type typ)) (sym same) (fixed stays (encode_bytes-HasBits typ v encoded))
]

encode_bool-HasType : (v : Value) {d : P4Data} → encode_bool v ≡ ok d → HasType bool_type d
unfolding encode_bool
encode_bool-HasType (flag b) {d} e =
    let same : d ≡ bool b = ground arith in subst (HasType bool_type) (sym same) flag_bit
encode_bool-HasType (exact x) e = cc
encode_bool-HasType (Value.bytes bs) e = cc
encode_bool-HasType null e = cc
encode_bool-HasType (sequence items) e = cc
encode_bool-HasType (dict fields) e = cc

encode_enum-IsUnsigned : (z : ℤ) (w : ℕ) {bs : Bytes} → encode_enum z w ≡ ok bs → IsUnsigned w bs
encode_enum-IsUnsigned z w {bs} e h =
    let encoded = (enum_codec_exact z bs w h).0 in
    let (n, _, decoded, _) = encode_exact_again (int z) w h (sym encoded ∙ e) in
    decode_exact-IsUnsigned bs w n h decoded

-- A stack has as many headers as its size.
stack-HasType :
    (typ : HeaderType) (size : ℕ) (hs : List P4Header)
    → All (HasHeaderType typ) hs
    → length hs ≡ size
    → HasType (header_stack_type typ size) (header_stack hs)
stack-HasType typ size hs all sized =
    subst (λ n. HasType (header_stack_type typ n) (header_stack hs)) sized (stack all)

union_stack-HasType :
    (typ : HeaderUnionType) (size : ℕ) (us : List P4HeaderUnion)
    → All (HasUnionType typ) us
    → length us ≡ size
    → HasType (header_union_stack_type typ size) (header_union_stack us)
union_stack-HasType typ size us all sized =
    subst (λ n. HasType (header_union_stack_type typ n) (header_union_stack us)) sized
      (union_stack all)

mutual
  unfolding encode_data encode_items encode_members

  has_type : (typ : P4Type) (v : Value) {d : P4Data} → encode_data typ v ≡ ok d → HasType typ d
  has_type (bits_type typ) v e = encode_bits-HasType typ v e
  has_type bool_type v e = encode_bool-HasType v e
  has_type (tuple_type types) v {d} e =
      let (items, _, e1) = >>=-eq-ok (as_sequence v) _ e in
      let (_, sized, e2) =
        >>=-eq-ok (guard (count_items items == count_types types) value_error) _ e1 in
      let (ds, e3, e4) = >>=-eq-ok (encode_items types items) _ e2 in
      let same : d ≡ tuple ds = ground arith in
      subst (HasType (tuple_type types)) (sym same) (in_tuple (have_types types items e3))
  has_type (struct_type members) v {d} e =
      let (fields, _, e1) = >>=-eq-ok (as_dict v) _ e in
      let (ds, e2, e3) = >>=-eq-ok (encode_members members fields) _ e1 in
      let (_, room, e4) = >>=-eq-ok (guard (leb (count fields) (count_data ds)) value_error) _ e3 in
      let same : d ≡ struct ds = ground arith in
      subst (HasType (struct_type members)) (sym same) (in_struct (have_members members fields e2))
  has_type (header_type typ) v {d} e =
      let (h, encoded, e1) = >>=-eq-ok (encode_header typ v) _ e in
      let same : d ≡ header h = ground arith in
      subst (HasType (header_type typ)) (sym same) (one (encode_header-HasHeaderType typ v encoded))
  has_type (header_union_type typ) v {d} e =
      let (u, encoded, e1) = >>=-eq-ok (encode_union typ v) _ e in
      let same : d ≡ header_union u = ground arith in
      subst (HasType (header_union_type typ)) (sym same)
        (union (encode_union-HasUnionType typ v encoded))
  has_type (header_stack_type typ size) v {d} e =
      let (items, _, e1) = >>=-eq-ok (as_sequence v) _ e in
      let (_, sized, e2) = >>=-eq-ok (guard (count_items items == size) value_error) _ e1 in
      let (hs, e3, e4) = >>=-eq-ok (encode_headers typ items) _ e2 in
      let (all, counted) = encode_headers-All typ items e3 in
      let even = (==_iff (count_items items) size).0 (guard_inv _ value_error sized) in
      let same : d ≡ header_stack hs = ground arith in
      subst (HasType (header_stack_type typ size)) (sym same)
        (stack-HasType typ size hs all (counted ∙ even))
  has_type (header_union_stack_type typ size) v {d} e =
      let (items, _, e1) = >>=-eq-ok (as_sequence v) _ e in
      let (_, sized, e2) = >>=-eq-ok (guard (count_items items == size) value_error) _ e1 in
      let (us, e3, e4) = >>=-eq-ok (encode_unions typ items) _ e2 in
      let (all, counted) = encode_unions-All typ items e3 in
      let even = (==_iff (count_items items) size).0 (guard_inv _ value_error sized) in
      let same : d ≡ header_union_stack us = ground arith in
      subst (HasType (header_union_stack_type typ size)) (sym same)
        (union_stack-HasType typ size us all (counted ∙ even))
  has_type (new_type (original_type typ)) v e = original (has_type typ v e)
  has_type (new_type (sdn_bitwidth w)) v {d} e =
      let (bs, encoded, e1) = >>=-eq-ok (encode_any v w) _ e in
      let same : d ≡ bitstring bs = ground arith in
      subst (HasType (new_type (sdn_bitwidth w))) (sym same)
        (sdn_bits (encode_any-IsUnsigned v w encoded))
  has_type (new_type sdn_string) v {d} e =
      let (bs, encoded, e1) = >>=-eq-ok (encode_sdn_string v) _ e in
      let same : d ≡ bitstring bs = ground arith in
      subst (HasType (new_type sdn_string)) (sym same) sdn_text
  has_type (serializable_enum_type w) v {d} e =
      let (z, _, e1) = >>=-eq-ok (as_integer v) _ e in
      let (bs, encoded, e2) = >>=-eq-ok (encode_enum z w) _ e1 in
      let same : d ≡ enum_value bs = ground arith in
      subst (HasType (serializable_enum_type w)) (sym same)
        (enum_number (encode_enum-IsUnsigned z w encoded))

  have_types :
      (types : Types) (items : Items) {ds : Datas}
      → encode_items types items ≡ ok ds
      → HaveTypes types ds
  have_types tuple_end items {ds} e =
      let same : ds ≡ data_end = ground arith in subst (HaveTypes tuple_end) (sym same) no_types
  have_types (more_types typ types) nil e = cc
  have_types (more_types typ types) (cons v items) {ds} e =
      let (first, encoded, e1) = >>=-eq-ok (encode_data typ v) _ e in
      let (rest, e2, e3) = >>=-eq-ok (encode_items types items) _ e1 in
      let same : ds ≡ more_data first rest = ground arith in
      subst (HaveTypes (more_types typ types)) (sym same)
        (and_types (has_type typ v encoded) (have_types types items e2))

  have_members :
      (members : Members) (value : Fields) {ds : Datas}
      → encode_members members value ≡ ok ds
      → HaveMembers members ds
  have_members struct_end value {ds} e =
      let same : ds ≡ data_end = ground arith in
      subst (HaveMembers struct_end) (sym same) no_members
  have_members (member key typ members) value {ds} e =
      let (v, _, e1) = >>=-eq-ok (required key value) _ e in
      let (first, encoded, e2) = >>=-eq-ok (encode_data typ v) _ e1 in
      let (rest, e3, e4) = >>=-eq-ok (encode_members members value) _ e2 in
      let same : ds ≡ more_data first rest = ground arith in
      subst (HaveMembers (member key typ members)) (sym same)
        (and_members (has_type typ v encoded) (have_members members value e3))

-- Whatever the value: what `encode_data` gives for a type is a message of that type. Its parts are
-- those of the type, in their order and in their number; an unsigned bit string is below 2 to its width
-- and a signed one within the range of its width, where a width is not 0; that of a variable width is no
-- wider than the type allows; and a header that is set in a union is one of its members.
pub encode_data-HasType :
    (typ : P4Type) (v : Value) {d : P4Data} → encode_data typ v ≡ ok d → HasType typ d
encode_data-HasType = has_type
