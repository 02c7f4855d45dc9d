-- ===== src/Schema/MatchField/RoundTrip.antt =====
-- What a match field encodes, it decodes, and encoding what was decoded gives the same message.
use finsy.Prelude.{
  ℕ, ◌<◌, ◌≡◌, refl, ap, sym, subst, ◌∙◌, Bool, true, false, Option, none, some, [], ◌∷◌, str_eq,
  ◌==◌,
}
use finsy.Prelude.{arith, ok, >>=-eq-ok, Ensures}
use finsy.Values.Exact.{int, str, ipv4, ipv6, mac, encode_exact}
use finsy.Values.Lpm.{LpmValue, encode_lpm}
use finsy.Values.Ternary.{encode_ternary}
use finsy.Values.Range.{encode_range}
use finsy.Schema.MatchField.{
  MatchType, exact, lpm, ternary, range, optional, unspecified, other_match_type, MatchField,
  FieldValue, one, pair, ipv4_network, ipv6_network, null, Match, exact_match, optional_match,
  lpm_match, ternary_match, range_match, FieldMatch, unless_any, encode_match, encode_field,
  decode_field, decode_format, has_address_format_annotation, as_exact, as_lpm, as_ternary,
  as_range, with_id,
}
use finsy.Schema.MatchField.Encoded.{
  encode_exact-IsEncoded, IsNetwork, IsLpmValue, encode_lpm-IsPrefixed,
}
use finsy.Schema.MatchField.Kinds.{
  encode_ternary-ArePaired, encode_range-ArePaired, HasMatch, exact-HasMatch, ternary-HasMatch,
  range-HasMatch, lpm-HasMatch,
}

-- What `ipaddress` promises of the networks that it makes
abbrev pub IsFieldValue : FieldValue → Type 0
IsFieldValue (ipv4_network n prefixlen) = IsNetwork 32 n prefixlen
IsFieldValue (ipv6_network n prefixlen) = IsNetwork 128 n prefixlen
IsFieldValue _ = Unit

as_lpm-IsLpmValue :
    (v : FieldValue) {x : LpmValue} → IsFieldValue v → as_lpm v ≡ ok x → IsLpmValue x
unfolding as_lpm
as_lpm-IsLpmValue (one v) {x} k e = subst (Ensures IsLpmValue) e tt
as_lpm-IsLpmValue (pair v (int z)) k e = subst (Ensures IsLpmValue) e tt
as_lpm-IsLpmValue (pair v (str s)) k e = cc
as_lpm-IsLpmValue (pair v (ipv4 n)) k e = cc
as_lpm-IsLpmValue (pair v (ipv6 n)) k e = cc
as_lpm-IsLpmValue (pair v (mac a)) k e = cc
as_lpm-IsLpmValue (ipv4_network n p) k e = subst (Ensures IsLpmValue) e k
as_lpm-IsLpmValue (ipv6_network n p) k e = subst (Ensures IsLpmValue) e k
as_lpm-IsLpmValue null k e = cc

unless_any_inv :
    (b : Bool) (x m : Match) → ok (unless_any b x) ≡ ok (some m) → (b ≡ false) × (x ≡ m)
unfolding unless_any
unless_any_inv true x m e = cc
unless_any_inv false x m e = (refl, ground arith)

match_again :
    (kind : MatchType) (v : FieldValue) (w : ℕ) (as_address : Bool) {m : Match}
    → 0 < w
    → IsFieldValue v
    → encode_match kind v w ≡ ok (some m)
    → HasMatch kind w as_address m
unfolding encode_match as_exact
match_again exact v w as_address {m} h k e =
    let (x, _, e1) = >>=-eq-ok (as_exact v) _ e in
    let (bs, e2, e3) = >>=-eq-ok (encode_exact x w) _ e1 in
    let same : m ≡ exact_match bs = ground arith in
    subst (HasMatch exact w as_address) (sym same)
      (exact-HasMatch w bs as_address h (encode_exact-IsEncoded x w h e2)).0
match_again lpm v w as_address {m} h k e =
    let (x, e0, e1) = >>=-eq-ok (as_lpm v) _ e in
    let ((bs, p), e2, e3) = >>=-eq-ok (encode_lpm x w) _ e1 in
    let (some_prefix, same) = unless_any_inv (p == 0) (lpm_match bs p) m e3 in
    subst (HasMatch lpm w as_address) same (
      lpm-HasMatch w bs p as_address h some_prefix
        (encode_lpm-IsPrefixed x w h (as_lpm-IsLpmValue v k e0) e2))
match_again ternary v w as_address {m} h k e =
    let (x, _, e1) = >>=-eq-ok (as_ternary v) _ e in
    let ((a, b), e2, e3) = >>=-eq-ok (encode_ternary x w) _ e1 in
    let (some_mask, same) = unless_any_inv (str_eq b (0 ∷ [])) (ternary_match a b) m e3 in
    subst (HasMatch ternary w as_address) same
      (ternary-HasMatch w a b as_address h some_mask (encode_ternary-ArePaired x w h e2))
match_again range v w as_address {m} h k e =
    let (x, _, e1) = >>=-eq-ok (as_range v) _ e in
    let ((a, b), e2, e3) = >>=-eq-ok (encode_range x w) _ e1 in
    let same : m ≡ range_match a b = ground arith in
    subst (HasMatch range w as_address) (sym same)
      (range-HasMatch w a b as_address h (encode_range-ArePaired x w h e2))
match_again optional null w as_address h k e = cc
match_again optional (one x) w as_address {m} h k e =
    let (bs, e2, e3) = >>=-eq-ok (encode_exact x w) _ e in
    let same : m ≡ optional_match bs = ground arith in
    subst (HasMatch optional w as_address) (sym same)
      (exact-HasMatch w bs as_address h (encode_exact-IsEncoded x w h e2)).1
match_again optional (pair x y) w as_address h k e = cc
match_again optional (ipv4_network n p) w as_address h k e = cc
match_again optional (ipv6_network n p) w as_address h k e = cc
match_again unspecified v w as_address h k e = cc
match_again (other_match_type s) v w as_address h k e = cc

-- The message of a field has its ID.
pub with_id_inv :
    (ident : ℕ) (sent : Option Match) (m : FieldMatch)
    → with_id ident sent ≡ some m
    → (x : Match) × (sent ≡ some x) × (record { field_id = ident; match = x } ≡ m)
unfolding with_id
with_id_inv ident none m e = cc
with_id_inv ident (some x) m e = (x, refl, ground arith)

encode_field_lem :
    (field : MatchField) (v : FieldValue) (x : Match)
    → encode_match field.match_type v field.bitwidth ≡ ok (some x)
    → encode_field field v ≡ ok (some (record { field_id = field.id; match = x }))
unfolding encode_field with_id
encode_field_lem field v x e = rw e refl

-- On a width of at least one bit: a value that a match field encodes as a message, a network
-- being one that ipaddress makes, is decoded from it, and encoding what was decoded gives the
-- same message, whatever the type of the match and the format.
pub encode_field-decode_field :
    (field : MatchField) (v : FieldValue) {m : FieldMatch}
    → 0 < field.bitwidth
    → IsFieldValue v
    → encode_field field v ≡ ok (some m)
    → (v' : FieldValue) × (decode_field field m ≡ ok v') × (encode_field field v' ≡ ok (some m))
unfolding encode_field decode_field decode_format
encode_field-decode_field field v {m} h k e =
    let (sent, e1, e2) = >>=-eq-ok (encode_match field.match_type v field.bitwidth) _ e in
    let (x, is_x, same) = with_id_inv field.id sent m (ground arith) in
    let as_address = has_address_format_annotation field.annotations in
    let (v', decoded, again) =
      match_again field.match_type v field.bitwidth as_address h k (e1 ∙ ap ok is_x) in
    let own = encode_field_lem field v' x again in
    subst
      (λ m.
        (v' : FieldValue) × (decode_field field m ≡ ok v') × (encode_field field v' ≡ ok (some m)))
      same (v', decoded, own)
