-- ===== src/Schema/DataTypes/Headers.antt =====
-- The bit strings, the headers and the header unions: what is encoded is decoded, and encoding what
-- was decoded gives the same message.
use finsy.Prelude.{
  ℕ, zero, suc, ◌+◌, ◌^◌, ◌≤◌, ◌<◌, ◌≡◌, refl, ap, sym, subst, ◌∙◌, inl, inr, true, false, some,
}
use finsy.Prelude.{arith, List, [], ◌∷◌, Str, Bytes, All, length, str_eq, Bool-cases}
use finsy.Prelude.{leb, le→leb, ltb, ltb→lt}
use finsy.Prelude.{ok, value_error, guard, >>=-eq-ok, ==_iff}
use finsy.Prelude.Int.{ℤ, pos, negsuc}
use finsy.Values.Exact.{ExactValue, int, default_format, encode_exact, decode_exact, present}
use finsy.Values.Exact.Laws.{exact_int-int, decode_exact-encode_exact}
use finsy.Values.Ternary.Laws.{exact_shortest}
use finsy.Values.Signed.{encode_signed, decode_signed}
use finsy.Values.Signed.Laws.{decode_signed-encode_signed, encode_signed_refused}
use finsy.Schema.DataTypes.{
  Value, exact, flag, bytes, null, sequence, dict, Fields, end, count, lookup, put, as_dict,
  required, P4Header, as_integer, encode_any, BitsType, encode_bytes, decode_bytes, HeaderType,
  is_falsy, encode_bitstrings, encode_header, decode_bitstrings, decode_header,
}
use finsy.Schema.DataTypes.Lookup.{
  Distinct, lookup-put_self, lookup-put_other, count-put, pos_count-put, is_falsy-count,
  count-is_falsy, required-lookup,
}

-- A number that was encoded is read as a number, which is encoded as the same bytes.
pub encode_exact_again :
    (v : ExactValue) (w : ℕ) {bs : Bytes}
    → 0 < w
    → encode_exact v w ≡ ok bs
    → (n : ℕ) × (n < 2 ^ w)
      × (decode_exact bs w default_format ≡ ok (int (pos n)))
      × (encode_exact (int (pos n)) w ≡ ok bs)
unfolding present
encode_exact_again v w {bs} h e =
    let (n, is_n, fits, decoded) = decode_exact-encode_exact v w default_format h e in
    let again = exact_shortest (int (pos n)) w n h (exact_int-int (pos n) w) fits in
    (n, fits, decoded, again ∙ sym (exact_shortest v w n h is_n fits) ∙ e)

pub encode_any_again :
    (v : Value) (w : ℕ) {bs : Bytes}
    → 0 < w
    → encode_any v w ≡ ok bs
    → (n : ℕ) × (n < 2 ^ w)
      × (decode_exact bs w default_format ≡ ok (int (pos n)))
      × (encode_exact (int (pos n)) w ≡ ok bs)
unfolding encode_any
encode_any_again (exact v) w h e = encode_exact_again v w h e
encode_any_again (flag true) w h e = encode_exact_again _ w h e
encode_any_again (flag false) w h e = encode_exact_again _ w h e
encode_any_again (bytes bs) w h e = cc
encode_any_again null w h e = cc
encode_any_again (sequence items) w h e = cc
encode_any_again (dict fields) w h e = cc

pub encode_signed_again :
    (z : ℤ) (w : ℕ) {bs : Bytes} → 0 < w → encode_signed z w ≡ ok bs → decode_signed bs w ≡ z
encode_signed_again z zero h e = absurd (omega arith)
encode_signed_again (pos n) (suc w) h e = elim (Bool-cases (ltb n (2 ^ w))) [
  | inl fits ↦
      let (s, encoded, decoded) = (decode_signed-encode_signed w n (ltb→lt n (2 ^ w) fits)).0 in
      cc (encoded, e, decoded)
  | inr wide ↦ cc ((encode_signed_refused w n (ground arith)).0, e)
]
encode_signed_again (negsuc n) (suc w) h e = elim (Bool-cases (ltb n (2 ^ w))) [
  | inl fits ↦
      let (s, encoded, decoded) = (decode_signed-encode_signed w n (ltb→lt n (2 ^ w) fits)).1 in
      cc (encoded, e, decoded)
  | inr wide ↦ cc ((encode_signed_refused w n (ground arith)).1, e)
]

-- What `encode_bytes` gives, `decode_bytes` takes.
pub encode_bytes_again :
    (typ : BitsType) (v : Value) {bs : Bytes}
    → 0 < typ.bitwidth
    → encode_bytes typ v ≡ ok bs
    → (v' : Value) × (decode_bytes typ bs ≡ ok v') × (encode_bytes typ v' ≡ ok bs)
unfolding encode_bytes decode_bytes
encode_bytes_again typ v {bs} h e = elim (Bool-cases typ.signed) [
  | inl signed ↦
      let (z, is_z, encoded) =
        >>=-eq-ok (as_integer v) (λ n. encode_signed n typ.bitwidth) (rw signed at e) in
      let decoded = encode_signed_again z typ.bitwidth h encoded in
      (
        exact (int (decode_signed bs typ.bitwidth)),
        rw signed refl,
        rw (signed, decoded, as_integer) encoded,
      )
  | inr plain ↦
      let (n, _, decoded, again) = encode_any_again v typ.bitwidth h (rw plain at e) in
      (exact (int (pos n)), rw (plain, decoded) refl, rw (plain, encode_any) again)
]

abbrev pub IsSized : Str × BitsType → Type 0
IsSized (key, typ) = 0 < typ.bitwidth

abbrev pub keys {ℓ} : {A : Type ℓ} → List (Str × A) → List Str
keys [] = []
keys ((key, a) ∷ members) = key ∷ keys members

-- Each member has bits, and a name of its own.
abbrev pub IsHeaderType : HeaderType → Type 0
IsHeaderType members = All IsSized members × Distinct (keys members)

-- The bit strings of the members, decoded into `acc`, and encoded again.
record Restored (members : HeaderType) (strings : List Bytes) (acc : Fields) : Type 0 where
  pub result : Fields
  pub decoded : decode_bitstrings members strings acc ≡ ok result
  pub again : encode_bitstrings members result ≡ ok strings
  pub others :
      (key : Str)
      → All (λ other. str_eq key other ≡ false) (keys members)
      → lookup key result ≡ lookup key acc
  pub bounded : count result ≤ count acc + length members
  pub full : 0 < count acc + length members → 0 < count result
  pub sized : length strings ≡ length members

restore :
    (members : HeaderType) (value : Fields) (strings : List Bytes) (acc : Fields)
    → All IsSized members
    → Distinct (keys members)
    → encode_bitstrings members value ≡ ok strings
    → Restored members strings acc
unfolding encode_bitstrings decode_bitstrings
restore [] value [] acc wide apart e = record {
  result = acc;
  decoded = refl;
  again = refl;
  others = λ key h. refl;
  bounded = omega arith;
  full = λ h. omega arith;
  sized = refl;
}
restore [] value (s ∷ strings) acc wide apart e = cc
restore ((key, typ) ∷ members) value strings acc (wide, wides) (apart, aparts) e =
    let (v, found, e1) = >>=-eq-ok (required key value) _ e in
    let (first, encoded, e2) = >>=-eq-ok (encode_bytes typ v) _ e1 in
    let (rest, e3, e4) = >>=-eq-ok (encode_bitstrings members value) _ e2 in
    let (v', decoded, again) = encode_bytes_again typ v wide encoded in
    let r = restore members value rest (put key v' acc) wides aparts e3 in
    let here : lookup key r.result ≡ some v' = r.others key apart ∙ lookup-put_self key v' acc in
    let same : strings ≡ first ∷ rest = ground arith in
    subst (λ ss. Restored ((key, typ) ∷ members) ss acc) (sym same)
      (record {
        result = r.result;
        decoded = rw decoded r.decoded;
        again = rw (required-lookup key r.result here, again, r.again) refl;
        others = λ k h. r.others k h.1 ∙ lookup-put_other k key v' acc h.0;
        bounded = omega (arith, r.bounded, count-put key v' acc);
        full = λ h. r.full (omega (arith, pos_count-put key v' acc));
        sized = ap suc r.sized;
      })

as_dict_inv : (v : Value) {fields : Fields} → as_dict v ≡ ok fields → v ≡ dict fields
as_dict_inv (dict fs) e = ground arith
as_dict_inv (exact x) e = cc
as_dict_inv (flag b) e = cc
as_dict_inv (bytes bs) e = cc
as_dict_inv null e = cc
as_dict_inv (sequence items) e = cc

-- The header is decoded, and encoding the fields gives it again.
abbrev pub HasHeader : HeaderType → P4Header → Type 0
HasHeader members h =
    (fields : Fields) × (decode_header members h ≡ ok fields)
    × (encode_header members (dict fields) ≡ ok h)

valid-HasHeader :
    (members : HeaderType) (strings : List Bytes)
    → Restored members strings end
    → 0 < length strings
    → HasHeader members (record { is_valid = true; bitstrings = strings })
unfolding encode_header decode_header
valid-HasHeader members strings r h =
    let held = r.full (omega (arith, r.sized)) in
    let short = le→leb (count r.result) (length strings) (omega (arith, r.bounded, r.sized)) in
    let even = (==_iff (length strings) (length members)).1 r.sized in
    (r.result, rw even r.decoded, rw (is_falsy-count r.result held, r.again, short) refl)

invalid-HasHeader :
    (members : HeaderType) → HasHeader members (record { is_valid = false; bitstrings = [] })
unfolding encode_header decode_header
invalid-HasHeader members = (end, refl, refl)

-- A header that was encoded is decoded, and encoding the fields gives the same header.
pub encode_header-HasHeader :
    (members : HeaderType) (v : Value) {h : P4Header}
    → IsHeaderType members
    → encode_header members v ≡ ok h
    → HasHeader members h
unfolding encode_header
encode_header-HasHeader members v {h} (wide, apart) e = elim (Bool-cases (is_falsy v)) [
  | inl falsy ↦
      let same : h ≡ record { is_valid = false; bitstrings = [] } = ground arith in
      subst (HasHeader members) (sym same) (invalid-HasHeader members)
  | inr truthy ↦
      let (value, is_value, e1) = >>=-eq-ok (as_dict v) _ (rw truthy at e) in
      let (strings, encoded, e2) = >>=-eq-ok (encode_bitstrings members value) _ e1 in
      let (_, fits, e3) = >>=-eq-ok (guard (leb (count value) (length strings)) value_error) _ e2 in
      let given = count-is_falsy value (ap is_falsy (sym (as_dict_inv v is_value)) ∙ truthy) in
      let room : count value ≤ length strings = ground arith in
      let r = restore members value strings end wide apart encoded in
      let same : h ≡ record { is_valid = true; bitstrings = strings } = ground arith in
      subst (HasHeader members) (sym same)
        (valid-HasHeader members strings r (omega (arith, given, room)))
]
