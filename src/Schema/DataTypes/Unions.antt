-- ===== src/Schema/DataTypes/Unions.antt =====
-- The header unions and the stacks: what is encoded is decoded, and encoding what was decoded gives
-- the same message.
use finsy.Prelude.{ℕ, suc, ◌<◌, ◌≡◌, refl, ap, sym, subst, inl, inr, false, some}
use finsy.Prelude.{arith, List, [], ◌∷◌, Str, All, length, str_eq, str_eq-eq, Bool-cases}
use finsy.Prelude.{Option-cases, ok, >>=-eq-ok}
use finsy.Schema.DataTypes.{
  Value, dict, Items, nil, cons, Fields, end, field, count_items, as_dict, P4Header, P4HeaderUnion,
  HeaderType, HeaderUnionType, encode_header, find_member, encode_fields, encode_union,
  decode_named, decode_union,
}
use finsy.Schema.DataTypes.Headers.{IsHeaderType, HasHeader, encode_header-HasHeader}
use finsy.Schema.DataTypes.Nested.{encode_headers, encode_unions, decode_headers, decode_unions}

abbrev pub IsUnionMember : Str × HeaderType → Type 0
IsUnionMember (key, header) = (0 < length key) × IsHeaderType header

-- Each member has a name that is not empty, and is a header of named bits.
abbrev pub IsUnionType : HeaderUnionType → Type 0
IsUnionType = All IsUnionMember

abbrev pub HasUnion : HeaderUnionType → P4HeaderUnion → Type 0
HasUnion members u =
    (fields : Fields) × (decode_union members u ≡ ok fields)
    × (encode_union members (dict fields) ≡ ok u)

find_member-IsUnionType :
    (name : Str) (members : HeaderUnionType) {header : HeaderType}
    → IsUnionType members
    → find_member name members ≡ some header
    → IsUnionMember (name, header)
find_member-IsUnionType name [] h e = cc
find_member-IsUnionType name ((k, header) ∷ members) (here, h) e =
    elim (Bool-cases (str_eq name k)) [
      | inl same ↦
          let found = rw same at e in
          let named : 0 < length name =
            subst (λ s. 0 < length s) (sym (str_eq-eq name k same)) here.0 in
          (named, ground arith)
      | inr other ↦ find_member-IsUnionType name members h (rw other at e)
    ]

named-HasUnion :
    (members : HeaderUnionType) (name : Str) (typ : HeaderType) (h : P4Header)
    → 0 < length name
    → find_member name members ≡ some typ
    → HasHeader typ h
    → HasUnion members (record { valid_header_name = name; valid_header = h })
unfolding encode_union decode_union
named-HasUnion members [] typ h pos_l found has = absurd (omega arith)
named-HasUnion members (c ∷ cs) typ h pos_l found (fields, decoded, again) = (
  field (c ∷ cs) (dict fields) end,
  rw (found, decode_named, decoded) refl,
  rw (found, encode_fields, again) refl,
)

none-HasUnion :
    (members : HeaderUnionType)
    → HasUnion members (record {
      valid_header_name = [];
      valid_header = record { is_valid = false; bitstrings = [] };
    })
unfolding encode_union decode_union
none-HasUnion members = (end, refl, refl)

encode_fields-HasUnion :
    (members : HeaderUnionType) (value : Fields) {u : P4HeaderUnion}
    → IsUnionType members
    → encode_fields members value ≡ ok u
    → HasUnion members u
unfolding encode_fields
encode_fields-HasUnion members end {u} h e =
    let same : u ≡ _ = ground arith in subst (HasUnion members) (sym same) (none-HasUnion members)
encode_fields-HasUnion members (field name header (field k v rest)) h e = cc
encode_fields-HasUnion members (field name v end) {u} h e =
    elim (Option-cases (find_member name members)) [
      | inl missing ↦ cc (rw (missing, encode_fields) at e)
      | inr (typ, found) ↦
          let (named, wide) = find_member-IsUnionType name members h found in
          let (encoded, e1, e2) =
            >>=-eq-ok (encode_header typ v) _ (rw (found, encode_fields) at e) in
          let has =
            named-HasUnion members name typ encoded named found
              (encode_header-HasHeader typ v wide e1) in
          let same : u ≡ record { valid_header_name = name; valid_header = encoded } =
            ground arith in
          subst (HasUnion members) (sym same) has
    ]

-- A header union that was encoded is decoded, and encoding the dict gives the same union.
pub encode_union-HasUnion :
    (members : HeaderUnionType) (v : Value) {u : P4HeaderUnion}
    → IsUnionType members
    → encode_union members v ≡ ok u
    → HasUnion members u
unfolding encode_union
encode_union-HasUnion members v h e =
    let (value, _, e1) = >>=-eq-ok (as_dict v) _ e in encode_fields-HasUnion members value h e1

-- A stack is decoded to as many items, which are encoded again as the stack.
abbrev pub HasHeaders : HeaderType → ℕ → List P4Header → Type 0
HasHeaders typ size hs =
    (items : Items) × (decode_headers typ hs ≡ ok items)
    × (encode_headers typ items ≡ ok hs)
    × (count_items items ≡ size)

abbrev pub HasUnions : HeaderUnionType → ℕ → List P4HeaderUnion → Type 0
HasUnions typ size us =
    (items : Items) × (decode_unions typ us ≡ ok items)
    × (encode_unions typ items ≡ ok us)
    × (count_items items ≡ size)

pub encode_headers-HasHeaders :
    (typ : HeaderType) (values : Items) {hs : List P4Header}
    → IsHeaderType typ
    → encode_headers typ values ≡ ok hs
    → HasHeaders typ (count_items values) hs
unfolding encode_headers decode_headers
encode_headers-HasHeaders typ nil {hs} h e =
    let same : hs ≡ [] = ground arith in subst (HasHeaders typ 0) (sym same) (nil, refl, refl, refl)
encode_headers-HasHeaders typ (cons v vs) {hs} h e =
    let (first, e1, e2) = >>=-eq-ok (encode_header typ v) _ e in
    let (rest, e3, e4) = >>=-eq-ok (encode_headers typ vs) _ e2 in
    let (fields, decoded, again) = encode_header-HasHeader typ v h e1 in
    let (items, decoded', again', sized) = encode_headers-HasHeaders typ vs h e3 in
    let same : hs ≡ first ∷ rest = ground arith in
    subst (HasHeaders typ _) (sym same)
      (cons (dict fields) items, rw (decoded, decoded') refl, rw (again, again') refl, ap suc sized)

pub encode_unions-HasUnions :
    (typ : HeaderUnionType) (values : Items) {us : List P4HeaderUnion}
    → IsUnionType typ
    → encode_unions typ values ≡ ok us
    → HasUnions typ (count_items values) us
unfolding encode_unions decode_unions
encode_unions-HasUnions typ nil {us} h e =
    let same : us ≡ [] = ground arith in subst (HasUnions typ 0) (sym same) (nil, refl, refl, refl)
encode_unions-HasUnions typ (cons v vs) {us} h e =
    let (first, e1, e2) = >>=-eq-ok (encode_union typ v) _ e in
    let (rest, e3, e4) = >>=-eq-ok (encode_unions typ vs) _ e2 in
    let (fields, decoded, again) = encode_union-HasUnion typ v h e1 in
    let (items, decoded', again', sized) = encode_unions-HasUnions typ vs h e3 in
    let same : us ≡ first ∷ rest = ground arith in
    subst (HasUnions typ _) (sym same)
      (cons (dict fields) items, rw (decoded, decoded') refl, rw (again, again') refl, ap suc sized)
