-- ===== src/Schema/DataTypes/RoundTrip.antt =====
-- All the data types: what is encoded is decoded, and encoding what was decoded gives the same
-- message.
use finsy.Prelude.{suc, ◌≡◌, refl, ap, sym, subst, ◌∙◌, some}
use finsy.Prelude.{arith, leb, ◌==◌, ==_iff}
use finsy.Prelude.{ok, value_error, guard, guard_inv, >>=-eq-ok}
use finsy.Schema.DataTypes.{
  Value, Items, nil, cons, Fields, end, count_items, count, lookup, put, as_dict, as_sequence,
  required,
}
use finsy.Schema.DataTypes.Lookup.{
  Distinct, lookup-put_self, lookup-put_other, count-put, required-lookup,
}
use finsy.Schema.DataTypes.Nested.{
  P4Type, bits_type, bool_type, tuple_type, struct_type, header_type, header_union_type,
  header_stack_type, header_union_stack_type, new_type, serializable_enum_type, original_type,
  sdn_bitwidth, sdn_string, Types, tuple_end, more_types, Members, struct_end, member, count_types,
  encode_data, encode_items, encode_members, decode_data, decode_items, decode_members,
}
use finsy.Schema.DataTypes.Messages.{P4Data, tuple, struct, Datas, data_end, more_data, count_data}
use finsy.Schema.DataTypes.Codable.{
  names, HasData, bits-HasData, bool-HasData, sdn-HasData, enum-HasData, HasItems, HasMembers,
  tuple-HasData, struct-HasData, header-HasData, union-HasData, stack-HasData, union_stack-HasData,
  IsCodable, AreCodable, HaveCodable,
}

mutual
  unfolding encode_data decode_data encode_items decode_items encode_members decode_members
      IsCodable

  has_data :
      (typ : P4Type) (v : Value) {d : P4Data}
      → IsCodable typ
      → encode_data typ v ≡ ok d
      → HasData typ d
  has_data (bits_type typ) v h e = bits-HasData typ v h.0 h.1 e
  has_data bool_type v h e = bool-HasData v e
  has_data (tuple_type types) v {d} h e =
      let (items, _, e1) = >>=-eq-ok (as_sequence v) _ e in
      let (_, sized, e2) =
        >>=-eq-ok (guard (count_items items == count_types types) value_error) _ e1 in
      let (ds, e3, e4) = >>=-eq-ok (encode_items types items) _ e2 in
      let even =
        (==_iff (count_items items) (count_types types)).0 (guard_inv _ value_error sized) in
      let same : d ≡ tuple ds = ground arith in
      subst (HasData (tuple_type types)) (sym same)
        (tuple-HasData types ds (has_items types items h even e3))
  has_data (struct_type members) v {d} (apart, h) e =
      let (fields, _, e1) = >>=-eq-ok (as_dict v) _ e in
      let (ds, e2, e3) = >>=-eq-ok (encode_members members fields) _ e1 in
      let (_, room, e4) = >>=-eq-ok (guard (leb (count fields) (count_data ds)) value_error) _ e3 in
      let same : d ≡ struct ds = ground arith in
      subst (HasData (struct_type members)) (sym same)
        (struct-HasData members ds (has_members members fields ds end h apart e2))
  has_data (header_type typ) v h e = header-HasData typ v h e
  has_data (header_union_type typ) v h e = union-HasData typ v h e
  has_data (header_stack_type typ size) v h e = stack-HasData typ size v h e
  has_data (header_union_stack_type typ size) v h e = union_stack-HasData typ size v h e
  has_data (new_type (original_type typ)) v h e = has_data typ v h e
  has_data (new_type (sdn_bitwidth w)) v h e = sdn-HasData w v h e
  has_data (new_type sdn_string) v h e = absurd h
  has_data (serializable_enum_type w) v h e = enum-HasData w v h e

  has_items :
      (types : Types) (items : Items) {ds : Datas}
      → AreCodable types
      → count_items items ≡ count_types types
      → encode_items types items ≡ ok ds
      → HasItems types ds
  has_items tuple_end nil {ds} h sized e =
      let same : ds ≡ data_end = ground arith in
      subst (HasItems tuple_end) (sym same) (nil, refl, refl, refl, refl)
  has_items tuple_end (cons v items) h sized e = absurd (omega arith)
  has_items (more_types typ types) nil h sized e = absurd (omega arith)
  has_items (more_types typ types) (cons v items) {ds} (h, hs) sized e =
      let (first, e1, e2) = >>=-eq-ok (encode_data typ v) _ e in
      let (rest, e3, e4) = >>=-eq-ok (encode_items types items) _ e2 in
      let (v', decoded, again) = has_data typ v h e1 in
      let (items', decoded', again', counted, sized') = has_items types items hs (omega arith) e3 in
      let same : ds ≡ more_data first rest = ground arith in
      subst (HasItems (more_types typ types)) (sym same) (
        cons v' items',
        rw (decoded, decoded') refl,
        rw (again, again') refl,
        ap suc counted,
        ap suc sized',
      )

  has_members :
      (members : Members) (value : Fields) (ds : Datas) (acc : Fields)
      → HaveCodable members
      → Distinct (names members)
      → encode_members members value ≡ ok ds
      → HasMembers members ds acc
  has_members struct_end value data_end acc h apart e = record {
    result = acc;
    decoded = refl;
    again = refl;
    others = λ key away. refl;
    bounded = omega arith;
    sized = refl;
  }
  has_members struct_end value (more_data d ds) acc h apart e = cc
  has_members (member key typ members) value ds acc (h, hs) (apart, aparts) e =
      let (v, found, e1) = >>=-eq-ok (required key value) _ e in
      let (first, encoded, e2) = >>=-eq-ok (encode_data typ v) _ e1 in
      let (rest, e3, e4) = >>=-eq-ok (encode_members members value) _ e2 in
      let (v', decoded, again) = has_data typ v h encoded in
      let r = has_members members value rest (put key v' acc) hs aparts e3 in
      let here : lookup key r.result ≡ some v' = r.others key apart ∙ lookup-put_self key v' acc in
      let same : ds ≡ more_data first rest = ground arith in
      subst (λ x. HasMembers (member key typ members) x acc) (sym same)
        (record {
          result = r.result;
          decoded = rw decoded r.decoded;
          again = rw (required-lookup key r.result here, again, r.again) refl;
          others = λ k away. r.others k away.1 ∙ lookup-put_other k key v' acc away.0;
          bounded = omega (arith, r.bounded, count-put key v' acc);
          sized = ap suc r.sized;
        })

-- For a type whose bit strings have a width that is fixed and not 0, whose members have names of
-- their own, and in which no text is translated: what a value is encoded as is decoded, and encoding
-- what was decoded gives the same message.
pub encode_data-decode_data :
    (typ : P4Type) (v : Value) {d : P4Data}
    → IsCodable typ
    → encode_data typ v ≡ ok d
    → (v' : Value) × (decode_data typ d ≡ ok v') × (encode_data typ v' ≡ ok d)
encode_data-decode_data = has_data
