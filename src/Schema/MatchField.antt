-- ===== src/Schema/MatchField.antt =====
-- finsy/p4schema.py: P4MatchField, P4ActionParam, P4CPMetadata, and the annotations that set their
-- format.
pub mod Encoded
pub mod Kinds
pub mod RoundTrip
mod Examples
use finsy.Prelude.{
  ℕ, Bool, true, false, ◌&&◌, ◌||◌, Option, none, some, List, [], ◌∷◌, Str, Bytes, codes, str_eq,
  ◌==◌, if◌then◌else◌,
}
use finsy.Prelude.{Result, ok, err, value_error, assertion_error, ◌>>=◌}
use finsy.Prelude.Int.{ℤ, pos, negsuc}
use finsy.Text.{split, remove_prefix?}
use finsy.Values.Exact.{
  ExactValue, int, str, DecodeFormat, default_format, with_string, encode_exact, decode_exact,
  format_exact,
}
use finsy.Values.Lpm.{LpmValue, encode_lpm, decode_lpm, format_lpm}
use finsy.Values.Ternary.{TernaryValue, encode_ternary, decode_ternary, format_ternary}
use finsy.Values.Range.{RangeValue, encode_range, decode_range, format_range}

-- P4MatchType, or the text of `other_match_type`
pub data MatchType : Type 0 where
  unspecified exact lpm ternary range optional : MatchType
  other_match_type : Str → MatchType

-- The body of an annotation: a text, or an expression list or key-value pairs, or none.
pub data Body : Type 0 where
  text : Str → Body
  structured no_body : Body

pub record Annotation : Type 0 where
  pub name : Str
  pub body : Body

-- `word in body`
unfoldable pub occurs_in : Str → Str → Bool
occurs_in word [] = str_eq word []
occurs_in word (c ∷ s) = elim (remove_prefix? word (c ∷ s)) [
  | some _ ↦ true
  | none ↦ occurs_in word s
]

names_address : Body → Bool
names_address (text s) = occurs_in (codes "ADDRESS") s
names_address _ = false

unfoldable pub has_address_format_annotation : List Annotation → Bool
unfolding names_address
has_address_format_annotation [] = false
has_address_format_annotation (annotation ∷ annotations) =
    (str_eq annotation.name (codes "format") && names_address annotation.body)
    || has_address_format_annotation annotations

-- What `_finish_init` makes of the annotations.
unfoldable pub decode_format : List Annotation → DecodeFormat
unfolding has_address_format_annotation
decode_format annotations = record {
  as_string = false;
  as_address = has_address_format_annotation annotations;
}

-- name.split(".")[-1]
last_part : List Str → Str
last_part [] = []
last_part (s ∷ []) = s
last_part (s ∷ t ∷ parts) = last_part (t ∷ parts)

unfoldable pub make_alias : Str → Str
unfolding last_part
make_alias s = last_part (split b'.' s)

pub record MatchField : Type 0 where
  pub id : ℕ
  pub name : Str
  pub bitwidth : ℕ
  pub match_type : MatchType
  pub annotations : List Annotation

unfoldable pub alias : MatchField → Str
alias field = make_alias field.name

-- A value of a field: a number, text or address, a pair, a network, or None.
pub data FieldValue : Type 0 where
  one : ExactValue → FieldValue
  pair : ExactValue → ExactValue → FieldValue
  ipv4_network ipv6_network : ℕ → ℕ → FieldValue
  null : FieldValue

-- Each codec refuses a value of another class, and asserts that it is not None.
unfoldable pub as_exact : FieldValue → Result ExactValue
as_exact (one v) = ok v
as_exact null = err assertion_error
as_exact _ = err value_error

unfoldable pub as_lpm : FieldValue → Result LpmValue
as_lpm (one v) = ok (LpmValue.exact v)
as_lpm (pair v (int prefix)) = ok (LpmValue.pair v prefix)
as_lpm (pair v _) = err value_error
as_lpm (ipv4_network n prefixlen) = ok (LpmValue.ipv4_network n prefixlen)
as_lpm (ipv6_network n prefixlen) = ok (LpmValue.ipv6_network n prefixlen)
as_lpm null = err assertion_error

unfoldable pub as_ternary : FieldValue → Result TernaryValue
as_ternary (one v) = ok (TernaryValue.exact v)
as_ternary (pair v mask) = ok (TernaryValue.pair v mask)
as_ternary (ipv4_network n prefixlen) = ok (TernaryValue.ipv4_network n prefixlen)
as_ternary (ipv6_network n prefixlen) = ok (TernaryValue.ipv6_network n prefixlen)
as_ternary null = err assertion_error

unfoldable pub as_range : FieldValue → Result RangeValue
as_range (one (str s)) = ok (RangeValue.text s)
as_range (pair low high) = ok (RangeValue.bounds low high)
as_range null = err assertion_error
as_range _ = err value_error

-- What the codecs return, as a value of a field
of_lpm : LpmValue → FieldValue
of_lpm (LpmValue.exact v) = one v
of_lpm (LpmValue.pair v prefix) = pair v (int prefix)
of_lpm (LpmValue.ipv4_network n prefixlen) = ipv4_network n prefixlen
of_lpm (LpmValue.ipv6_network n prefixlen) = ipv6_network n prefixlen

of_ternary : TernaryValue → FieldValue
of_ternary (TernaryValue.exact v) = one v
of_ternary (TernaryValue.pair v mask) = pair v mask
of_ternary (TernaryValue.ipv4_network n prefixlen) = ipv4_network n prefixlen
of_ternary (TernaryValue.ipv6_network n prefixlen) = ipv6_network n prefixlen

of_range : RangeValue → FieldValue
of_range (RangeValue.text s) = one (str s)
of_range (RangeValue.bounds low high) = pair low high

-- The `field_match_type` of a p4r.FieldMatch, and the message.
pub data Match : Type 0 where
  exact_match optional_match : Bytes → Match
  lpm_match : Bytes → ℕ → Match
  ternary_match range_match : Bytes → Bytes → Match
  no_match : Match

pub record FieldMatch : Type 0 where
  pub field_id : ℕ
  pub match : Match

-- A prefix of 0 and a mask of 0 match anything, and are not sent.
unfoldable pub unless_any : Bool → Match → Option Match
unless_any true m = none
unless_any false m = some m

unfoldable pub encode_match : MatchType → FieldValue → ℕ → Result (Option Match)
unfolding as_exact as_lpm as_ternary as_range
encode_match exact value bitwidth = do
  v ← as_exact value
  bytes ← encode_exact v bitwidth
  ok (some (exact_match bytes))
encode_match lpm value bitwidth = do
  v ← as_lpm value
  (bytes, prefix) ← encode_lpm v bitwidth
  ok (unless_any (prefix == 0) (lpm_match bytes prefix))
encode_match ternary value bitwidth = do
  v ← as_ternary value
  (bytes, mask) ← encode_ternary v bitwidth
  ok (unless_any (str_eq mask (0 ∷ [])) (ternary_match bytes mask))
encode_match range value bitwidth = do
  v ← as_range value
  (low, high) ← encode_range v bitwidth
  ok (some (range_match low high))
encode_match optional null bitwidth = ok none
encode_match optional value bitwidth = do
  v ← as_exact value
  bytes ← encode_exact v bitwidth
  ok (some (optional_match bytes))
encode_match unspecified value bitwidth = err value_error
encode_match (other_match_type s) value bitwidth = err value_error

-- p4r.FieldMatch(field_id=self.id, …)
unfoldable pub with_id : ℕ → Option Match → Option FieldMatch
with_id ident none = none
with_id ident (some m) = some (record { field_id = ident; match = m })

unfoldable pub encode_field : MatchField → FieldValue → Result (Option FieldMatch)
unfolding with_id
encode_field field value = do
  m ← encode_match field.match_type value field.bitwidth
  ok (with_id field.id m)

unfoldable pub decode_match : Match → ℕ → DecodeFormat → Result FieldValue
unfolding of_lpm of_ternary of_range
decode_match (exact_match bytes) bitwidth format = do
  v ← decode_exact bytes bitwidth format
  ok (one v)
decode_match (lpm_match bytes prefix) bitwidth format = do
  v ← decode_lpm bytes prefix bitwidth format
  ok (of_lpm v)
decode_match (ternary_match bytes mask) bitwidth format = do
  v ← decode_ternary bytes mask bitwidth format
  ok (of_ternary v)
decode_match (range_match low high) bitwidth format = do
  v ← decode_range low high bitwidth format
  ok (of_range v)
decode_match (optional_match bytes) bitwidth format = do
  v ← decode_exact bytes bitwidth format
  ok (one v)
decode_match no_match bitwidth format = err value_error

-- The type and the ID of the message are not compared with those of the field.
unfoldable pub decode_field : MatchField → FieldMatch → Result FieldValue
decode_field field message =
    decode_match message.match field.bitwidth (decode_format field.annotations)

unfoldable pub format_match : MatchType → FieldValue → ℕ → DecodeFormat → Result Str
unfolding as_exact as_lpm as_ternary as_range
format_match exact value bitwidth format = do v ← as_exact value; format_exact v bitwidth format
format_match lpm value bitwidth format = do v ← as_lpm value; format_lpm v bitwidth format
format_match ternary value bitwidth format = do
  v ← as_ternary value
  format_ternary v bitwidth format
format_match range value bitwidth format = do v ← as_range value; format_range v bitwidth format
format_match optional value bitwidth format = do v ← as_exact value; format_exact v bitwidth format
format_match unspecified value bitwidth format = err value_error
format_match (other_match_type s) value bitwidth format = err value_error

unfoldable pub format_field : MatchField → FieldValue → Result Str
format_field field value =
    format_match field.match_type value field.bitwidth
      (with_string (decode_format field.annotations))
