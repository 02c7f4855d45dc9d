-- ===== src/Schema/DataTypes/Codable.antt =====
-- The data types one by one: what is encoded is decoded, and encoding what was decoded gives the
-- same message.
use finsy.Prelude.{ℕ, ◌+◌, ◌≤◌, ◌<◌, ◌≡◌, refl, sym, subst, ◌∙◌, true, false, List, [], ◌∷◌}
use finsy.Prelude.{arith, Str, All, str_eq, le→leb, ◌==◌, ==_iff, if_false}
use finsy.Prelude.{ok, value_error, guard, >>=-eq-ok}
use finsy.Prelude.Int.{pos}
use finsy.Values.Exact.{int}
use finsy.Values.Signed.{encode_enum, decode_enum}
use finsy.Values.Signed.Laws.{enum_codec_exact}
use finsy.Schema.DataTypes.{
  Value, exact, flag, sequence, dict, Items, Fields, end, count_items, count, lookup, as_sequence,
  as_integer, encode_any, BitsType, encode_bytes, encode_header, encode_union, HeaderType,
  HeaderUnionType,
}
use finsy.Schema.DataTypes.Lookup.{Distinct}
use finsy.Schema.DataTypes.Headers.{
  IsHeaderType, encode_exact_again, encode_any_again, encode_bytes_again, encode_header-HasHeader,
}
use finsy.Schema.DataTypes.Unions.{
  IsUnionType, encode_union-HasUnion, encode_headers-HasHeaders, encode_unions-HasUnions,
}
use finsy.Schema.DataTypes.Nested.{
  P4Type, bits_type, bool_type, tuple_type, struct_type, header_type, header_union_type,
  header_stack_type, header_union_stack_type, new_type, serializable_enum_type, original_type,
  sdn_bitwidth, sdn_string, Types, tuple_end, more_types, Members, struct_end, member, count_types,
  count_members, encode_bits, decode_bits, encode_headers, encode_unions, encode_data, encode_items,
  encode_members, decode_data, decode_items, decode_members,
}
use finsy.Schema.DataTypes.Messages.{
  P4Data, bitstring, enum_value, bool, tuple, struct, header, header_union, header_stack,
  header_union_stack, Datas, count_data,
}

abbrev pub names : Members → List Str
names struct_end = []
names (member key typ members) = key ∷ names members

-- The types whose bit strings have a width that is fixed and not 0, whose members have names of their
-- own, and in which no text is translated.
unfoldable mutual
  pub IsCodable : P4Type → Type 0
  IsCodable (bits_type typ) = (typ.varbit ≡ false) × (0 < typ.bitwidth)
  IsCodable bool_type = Unit
  IsCodable (tuple_type types) = AreCodable types
  IsCodable (struct_type members) = Distinct (names members) × HaveCodable members
  IsCodable (header_type typ) = IsHeaderType typ
  IsCodable (header_union_type typ) = IsUnionType typ
  IsCodable (header_stack_type typ size) = IsHeaderType typ
  IsCodable (header_union_stack_type typ size) = IsUnionType typ
  IsCodable (new_type (original_type typ)) = IsCodable typ
  IsCodable (new_type (sdn_bitwidth w)) = 0 < w
  IsCodable (new_type sdn_string) = ⊥
  IsCodable (serializable_enum_type w) = 0 < w

  pub AreCodable : Types → Type 0
  AreCodable tuple_end = Unit
  AreCodable (more_types typ types) = IsCodable typ × AreCodable types

  pub HaveCodable : Members → Type 0
  HaveCodable struct_end = Unit
  HaveCodable (member key typ members) = IsCodable typ × HaveCodable members

-- The message is decoded, and encoding the value gives it again.
abbrev pub HasData : P4Type → P4Data → Type 0
HasData typ d = (v : Value) × (decode_data typ d ≡ ok v) × (encode_data typ v ≡ ok d)

pub bits-HasData :
    (typ : BitsType) (v : Value) {d : P4Data}
    → typ.varbit ≡ false
    → 0 < typ.bitwidth
    → encode_bits typ v ≡ ok d
    → HasData (bits_type typ) d
unfolding encode_data decode_data encode_bits decode_bits
bits-HasData typ v {d} fixed wide e =
    let (bs, e1, e2) = >>=-eq-ok (encode_bytes typ v) _ (sym (if_false _ _ fixed) ∙ e) in
    let (v', decoded, again) = encode_bytes_again typ v wide e1 in
    let same : d ≡ bitstring bs = ground arith in
    subst (HasData (bits_type typ)) (sym same)
      (v', if_false _ _ fixed ∙ decoded, if_false _ _ fixed ∙ rw again refl)

pub bool-HasData : (v : Value) {d : P4Data} → encode_data bool_type v ≡ ok d → HasData bool_type d
unfolding encode_data decode_data
bool-HasData (flag b) {d} e =
    let same : d ≡ bool b = ground arith in
    subst (HasData bool_type) (sym same) (flag b, refl, refl)
bool-HasData (exact x) e = cc
bool-HasData (Value.bytes bs) e = cc
bool-HasData Value.null e = cc
bool-HasData (sequence items) e = cc
bool-HasData (dict fields) e = cc

pub sdn-HasData :
    (w : ℕ) (v : Value) {d : P4Data}
    → 0 < w
    → encode_data (new_type (sdn_bitwidth w)) v ≡ ok d
    → HasData (new_type (sdn_bitwidth w)) d
unfolding encode_data decode_data encode_any
sdn-HasData w v {d} wide e =
    let (bs, e1, e2) = >>=-eq-ok (encode_any v w) _ e in
    let (n, _, decoded, again) = encode_any_again v w wide e1 in
    let same : d ≡ bitstring bs = ground arith in
    subst (HasData (new_type (sdn_bitwidth w))) (sym same)
      (exact (int (pos n)), rw decoded refl, rw again refl)

pub enum-HasData :
    (w : ℕ) (v : Value) {d : P4Data}
    → 0 < w
    → encode_data (serializable_enum_type w) v ≡ ok d
    → HasData (serializable_enum_type w) d
unfolding encode_data decode_data as_integer
enum-HasData w v {d} wide e =
    let (z, _, e0) = >>=-eq-ok (as_integer v) _ e in
    let (bs, e1, e2) = >>=-eq-ok (encode_enum z w) _ e0 in
    let (encoded, as_exact) = enum_codec_exact z bs w wide in
    let (n, _, decoded, again) = encode_exact_again (int z) w wide (sym encoded ∙ e1) in
    let (m, e3, e4) = >>=-eq-ok (decode_enum bs w) _ (sym as_exact ∙ decoded) in
    let number : m ≡ n = ground arith in
    let done = (enum_codec_exact (pos n) bs w wide).0 ∙ again in
    let same : d ≡ enum_value bs = ground arith in
    subst (HasData (serializable_enum_type w)) (sym same)
      (exact (int (pos n)), rw (e3, number) refl, rw done refl)

-- What was encoded for the types of a tuple.
abbrev pub HasItems : Types → Datas → Type 0
HasItems types ds =
    (items : Items) × (decode_items types ds ≡ ok items)
    × (encode_items types items ≡ ok ds)
    × (count_items items ≡ count_types types)
    × (count_data ds ≡ count_types types)

-- What was encoded for the members of a struct, decoded into `acc`, and encoded again.
pub record HasMembers (members : Members) (ds : Datas) (acc : Fields) : Type 0 where
  pub result : Fields
  pub decoded : decode_members members ds acc ≡ ok result
  pub again : encode_members members result ≡ ok ds
  pub others :
      (key : Str)
      → All (λ other. str_eq key other ≡ false) (names members)
      → lookup key result ≡ lookup key acc
  pub bounded : count result ≤ count acc + count_members members
  pub sized : count_data ds ≡ count_members members

pub tuple-HasData :
    (types : Types) (ds : Datas) → HasItems types ds → HasData (tuple_type types) (tuple ds)
unfolding encode_data decode_data
tuple-HasData types ds (items, decoded, again, counted, sized) =
    let even = (==_iff (count_data ds) (count_types types)).1 sized in
    let even' = (==_iff (count_items items) (count_types types)).1 counted in
    (sequence items, rw (even, decoded) refl, rw (even', again) refl)

pub struct-HasData :
    (members : Members) (ds : Datas)
    → HasMembers members ds end
    → HasData (struct_type members) (struct ds)
unfolding encode_data decode_data
struct-HasData members ds r =
    let even = (==_iff (count_data ds) (count_members members)).1 r.sized in
    let room = le→leb (count r.result) (count_data ds) (omega (arith, r.bounded, r.sized)) in
    (dict r.result, rw (even, r.decoded) refl, rw (r.again, room) refl)

pub header-HasData :
    (typ : HeaderType) (v : Value) {d : P4Data}
    → IsHeaderType typ
    → encode_data (header_type typ) v ≡ ok d
    → HasData (header_type typ) d
unfolding encode_data decode_data
header-HasData typ v {d} h e =
    let (x, e1, e2) = >>=-eq-ok (encode_header typ v) _ e in
    let (fields, decoded, again) = encode_header-HasHeader typ v h e1 in
    let same : d ≡ header x = ground arith in
    subst (HasData (header_type typ)) (sym same) (dict fields, rw decoded refl, rw again refl)

pub union-HasData :
    (typ : HeaderUnionType) (v : Value) {d : P4Data}
    → IsUnionType typ
    → encode_data (header_union_type typ) v ≡ ok d
    → HasData (header_union_type typ) d
unfolding encode_data decode_data
union-HasData typ v {d} h e =
    let (x, e1, e2) = >>=-eq-ok (encode_union typ v) _ e in
    let (fields, decoded, again) = encode_union-HasUnion typ v h e1 in
    let same : d ≡ header_union x = ground arith in
    subst (HasData (header_union_type typ)) (sym same) (dict fields, rw decoded refl, rw again refl)

pub stack-HasData :
    (typ : HeaderType) (size : ℕ) (v : Value) {d : P4Data}
    → IsHeaderType typ
    → encode_data (header_stack_type typ size) v ≡ ok d
    → HasData (header_stack_type typ size) d
unfolding encode_data decode_data
stack-HasData typ size v {d} h e =
    let (items, _, e1) = >>=-eq-ok (as_sequence v) _ e in
    let (_, sized, e2) = >>=-eq-ok (guard (count_items items == size) value_error) _ e1 in
    let (hs, e3, e4) = >>=-eq-ok (encode_headers typ items) _ e2 in
    let (items', decoded, again, counted) = encode_headers-HasHeaders typ items h e3 in
    let even : (count_items items' == size) ≡ true = ground arith in
    let same : d ≡ header_stack hs = ground arith in
    subst (HasData (header_stack_type typ size)) (sym same)
      (sequence items', rw decoded refl, rw (even, again) refl)

pub union_stack-HasData :
    (typ : HeaderUnionType) (size : ℕ) (v : Value) {d : P4Data}
    → IsUnionType typ
    → encode_data (header_union_stack_type typ size) v ≡ ok d
    → HasData (header_union_stack_type typ size) d
unfolding encode_data decode_data
union_stack-HasData typ size v {d} h e =
    let (items, _, e1) = >>=-eq-ok (as_sequence v) _ e in
    let (_, sized, e2) = >>=-eq-ok (guard (count_items items == size) value_error) _ e1 in
    let (us, e3, e4) = >>=-eq-ok (encode_unions typ items) _ e2 in
    let (items', decoded, again, counted) = encode_unions-HasUnions typ items h e3 in
    let even : (count_items items' == size) ≡ true = ground arith in
    let same : d ≡ header_union_stack us = ground arith in
    subst (HasData (header_union_stack_type typ size)) (sym same)
      (sequence items', rw decoded refl, rw (even, again) refl)
