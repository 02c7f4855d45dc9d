-- ===== src/Schema/DataTypes/Typed/Strings.antt =====
-- What is encoded for bit strings, headers and header unions belongs to their types.
use finsy.Prelude.{refl}
use finsy.Prelude.{
  ℕ, zero, suc, ◌^◌, ◌<◌, ◌≡◌, sym, subst, ◌∙◌, true, false, Option-cases, List, [], ◌∷◌, Bytes,
  length, inl, inr, Bool-cases, ltb, ltb→lt, leb, if_false, ne→==_false,
}
use finsy.Prelude.{arith, ok, value_error, guard, >>=-eq-ok}
use finsy.Prelude.Int.{ℤ, pos, negsuc}
use finsy.Bytes.{from_bytes}
use finsy.Values.Exact.{int, default_format, decode_exact, decode_number}
use finsy.Values.Exact.Laws.{decode_number_inv}
use finsy.Values.Signed.{encode_signed, decode_signed}
use finsy.Values.Signed.Laws.{encode_signed_refused}
use finsy.Schema.DataTypes.{
  Value, Fields, field, end, count, as_dict, required, as_integer, is_falsy, encode_any, BitsType,
  encode_bytes, HeaderType, HeaderUnionType, P4Header, P4HeaderUnion, find_member,
  encode_bitstrings, encode_header, encode_fields, encode_union,
}
use finsy.Schema.DataTypes.Headers.{encode_any_again, encode_signed_again}
use finsy.Schema.DataTypes.Typed.{
  IsUnsigned, IsSigned, HasBits, signed_bits, plain_bits, HaveBits, no_strings, more_strings,
  HasHeaderType, invalid_header, valid_header, HasUnionType, no_header, one_header,
}
use finsy.Prelude.{ap, suc, length, All}
use finsy.Schema.DataTypes.{Items, nil, cons, count_items}
use finsy.Schema.DataTypes.Nested.{encode_headers, encode_unions}

pub decode_exact-IsUnsigned :
    (bs : Bytes) (w n : ℕ)
    → 0 < w
    → decode_exact bs w default_format ≡ ok (int (pos n))
    → from_bytes bs < 2 ^ w
unfolding decode_exact
decode_exact-IsUnsigned bs w n h e =
    let (m, decoded, _) =
      >>=-eq-ok (decode_number bs w) _ (sym (if_false _ _ (ne→==_false w h)) ∙ e) in
    let (own, fits) = decode_number_inv bs w decoded in omega (arith, own, fits)

pub encode_any-IsUnsigned :
    (v : Value) (w : ℕ) {bs : Bytes} → encode_any v w ≡ ok bs → IsUnsigned w bs
encode_any-IsUnsigned v w {bs} e h =
    let (n, _, decoded, _) = encode_any_again v w h e in decode_exact-IsUnsigned bs w n h decoded

encode_signed-IsSigned : (z : ℤ) (w : ℕ) {bs : Bytes} → encode_signed z w ≡ ok bs → IsSigned w z
encode_signed-IsSigned z zero e = tt
encode_signed-IsSigned (pos n) (suc w) e = elim (Bool-cases (ltb n (2 ^ w))) [
  | inl fits ↦ ltb→lt n (2 ^ w) fits
  | inr wide ↦ cc ((encode_signed_refused w n (ground arith)).0, e)
]
encode_signed-IsSigned (negsuc n) (suc w) e = elim (Bool-cases (ltb n (2 ^ w))) [
  | inl fits ↦ ltb→lt n (2 ^ w) fits
  | inr wide ↦ cc ((encode_signed_refused w n (ground arith)).1, e)
]

decode_signed-IsSigned :
    (z : ℤ) (w : ℕ) {bs : Bytes} → encode_signed z w ≡ ok bs → IsSigned w (decode_signed bs w)
decode_signed-IsSigned z zero e = tt
decode_signed-IsSigned z (suc w) e =
    subst (IsSigned (suc w)) (sym (encode_signed_again z (suc w) (omega arith) e))
      (encode_signed-IsSigned z (suc w) e)

pub encode_bytes-HasBits :
    (typ : BitsType) (v : Value) {bs : Bytes} → encode_bytes typ v ≡ ok bs → HasBits typ bs
unfolding encode_bytes
encode_bytes-HasBits typ v e = elim (Bool-cases typ.signed) [
  | inl signed ↦
      let (z, _, encoded) =
        >>=-eq-ok (as_integer v) (λ n. encode_signed n typ.bitwidth) (rw signed at e) in
      signed_bits signed (decode_signed-IsSigned z typ.bitwidth encoded)
  | inr plain ↦ plain_bits plain (encode_any-IsUnsigned v typ.bitwidth (rw plain at e))
]

encode_bitstrings-HaveBits :
    (members : HeaderType) (value : Fields) {strings : List Bytes}
    → encode_bitstrings members value ≡ ok strings
    → HaveBits members strings
unfolding encode_bitstrings
encode_bitstrings-HaveBits [] value {strings} e =
    let same : strings ≡ [] = ground arith in subst (HaveBits []) (sym same) no_strings
encode_bitstrings-HaveBits ((key, typ) ∷ members) value {strings} e =
    let (v, found, e1) = >>=-eq-ok (required key value) _ e in
    let (first, encoded, e2) = >>=-eq-ok (encode_bytes typ v) _ e1 in
    let (rest, e3, e4) = >>=-eq-ok (encode_bitstrings members value) _ e2 in
    let same : strings ≡ first ∷ rest = ground arith in
    subst (HaveBits ((key, typ) ∷ members)) (sym same) (
      more_strings (encode_bytes-HasBits typ v encoded)
        (encode_bitstrings-HaveBits members value e3))

pub encode_header-HasHeaderType :
    (members : HeaderType) (v : Value) {h : P4Header}
    → encode_header members v ≡ ok h
    → HasHeaderType members h
unfolding encode_header
encode_header-HasHeaderType members v {h} e = elim (Bool-cases (is_falsy v)) [
  | inl falsy ↦
      let same : h ≡ record { is_valid = false; bitstrings = [] } = ground arith in
      subst (HasHeaderType members) (sym same) invalid_header
  | inr truthy ↦
      let (value, _, e1) = >>=-eq-ok (as_dict v) _ (rw truthy at e) in
      let (strings, encoded, e2) = >>=-eq-ok (encode_bitstrings members value) _ e1 in
      let (_, fits, e3) = >>=-eq-ok (guard (leb (count value) (length strings)) value_error) _ e2 in
      let same : h ≡ record { is_valid = true; bitstrings = strings } = ground arith in
      subst (HasHeaderType members) (sym same)
        (valid_header (encode_bitstrings-HaveBits members value encoded))
]

encode_fields-HasUnionType :
    (members : HeaderUnionType) (fields : Fields) {u : P4HeaderUnion}
    → encode_fields members fields ≡ ok u
    → HasUnionType members u
unfolding encode_fields
encode_fields-HasUnionType members end {u} e =
    let same : u ≡ record {
      valid_header_name = [];
      valid_header = record { is_valid = false; bitstrings = [] };
    } =
      ground arith in
    subst (HasUnionType members) (sym same) no_header
encode_fields-HasUnionType members (field key v end) {u} e =
    elim (Option-cases (find_member key members)) [
      | inl missing ↦ cc (rw (missing, encode_fields) at e)
      | inr (typ, found) ↦
          let (h, encoded, e1) =
            >>=-eq-ok (encode_header typ v) _ (rw (found, encode_fields) at e) in
          let same : u ≡ record { valid_header_name = key; valid_header = h } = ground arith in
          subst (HasUnionType members) (sym same)
            (one_header found (encode_header-HasHeaderType typ v encoded))
    ]
encode_fields-HasUnionType members (field key v (field k w fields)) e = cc

pub encode_union-HasUnionType :
    (members : HeaderUnionType) (v : Value) {u : P4HeaderUnion}
    → encode_union members v ≡ ok u
    → HasUnionType members u
unfolding encode_union
encode_union-HasUnionType members v e =
    let (fields, _, e1) = >>=-eq-ok (as_dict v) _ e in encode_fields-HasUnionType members fields e1

pub encode_headers-All :
    (typ : HeaderType) (items : Items) {hs : List P4Header}
    → encode_headers typ items ≡ ok hs
    → All (HasHeaderType typ) hs × (length hs ≡ count_items items)
unfolding encode_headers
encode_headers-All typ nil {hs} e =
    let same : hs ≡ [] = ground arith in
    subst (λ hs. All (HasHeaderType typ) hs × (length hs ≡ 0)) (sym same) (tt, refl)
encode_headers-All typ (cons v items) {hs} e =
    let (h, encoded, e1) = >>=-eq-ok (encode_header typ v) _ e in
    let (others, e2, e3) = >>=-eq-ok (encode_headers typ items) _ e1 in
    let (all, counted) = encode_headers-All typ items e2 in
    let same : hs ≡ h ∷ others = ground arith in
    subst (λ hs. All (HasHeaderType typ) hs × (length hs ≡ suc (count_items items))) (sym same)
      ((encode_header-HasHeaderType typ v encoded, all), ap suc counted)

pub encode_unions-All :
    (typ : HeaderUnionType) (items : Items) {us : List P4HeaderUnion}
    → encode_unions typ items ≡ ok us
    → All (HasUnionType typ) us × (length us ≡ count_items items)
unfolding encode_unions
encode_unions-All typ nil {us} e =
    let same : us ≡ [] = ground arith in
    subst (λ us. All (HasUnionType typ) us × (length us ≡ 0)) (sym same) (tt, refl)
encode_unions-All typ (cons v items) {us} e =
    let (u, encoded, e1) = >>=-eq-ok (encode_union typ v) _ e in
    let (others, e2, e3) = >>=-eq-ok (encode_unions typ items) _ e1 in
    let (all, counted) = encode_unions-All typ items e2 in
    let same : us ≡ u ∷ others = ground arith in
    subst (λ us. All (HasUnionType typ) us × (length us ≡ suc (count_items items))) (sym same)
      ((encode_union-HasUnionType typ v encoded, all), ap suc counted)
