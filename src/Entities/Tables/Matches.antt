-- ===== src/Entities/Tables/Matches.antt =====
-- Table matches: what they are encoded as is decoded, and encoding it gives the same messages.
use finsy.Prelude.{
  ◌<◌, ◌≡◌, refl, ap, sym, ◌∙◌, subst, Option, none, some, List, [], ◌∷◌, ◌++◌, Str, All,
}
use finsy.Prelude.{arith, Result, ok, err, >>=-eq-ok}
use finsy.Schema.DataTypes.Lookup.{Distinct}
use finsy.Schema.EntityMap.{EntityMap, Key, id, name, get, get_item}
use finsy.Schema.EntityMap.Indexed.{IsIndexed, get-IsIndexed}
use finsy.Schema.MatchField.{
  MatchField, alias, FieldValue, FieldMatch, encode_match, encode_field, decode_field,
}
use finsy.Schema.MatchField.RoundTrip.{IsFieldValue, with_id_inv, encode_field-decode_field}
use finsy.Schema.Actions.{field_entity, action_entity}
use finsy.Entities.{put_item}
use finsy.Entities.Actions.{
  IsNew, arg_names, put_item_new, still-IsNew, append_assoc, append_nil, get_item_inv, get_item-get,
}
use finsy.Entities.Tables.{
  TableMatch, as_value_error, append_some, encode_item, encode_matches, decode_matches,
}

-- The fields of a table: they are found by their IDs, and have bits.
pub record AreFields (fields : EntityMap MatchField) : Type 0 where
  pub indexed : IsIndexed fields
  pub wide : (key : Key) (f : MatchField) → get key fields ≡ some f → 0 < f.bitwidth

-- A match names each field once, by its alias, and its networks are those that `ipaddress` makes.
abbrev pub IsItem : EntityMap MatchField → Str × FieldValue → Type 0
IsItem fields (key, value) =
    ((f : MatchField) → get (name key) fields ≡ some f → alias f ≡ key) × IsFieldValue value

as_value_error_inv : {A : Type 0} (r : Result A) {a : A} → as_value_error r ≡ ok a → r ≡ ok a
unfolding as_value_error
as_value_error_inv (ok a) e = e
as_value_error_inv (err x) e = cc

encode_field_id :
    (f : MatchField) (v : FieldValue) {m : FieldMatch}
    → encode_field f v ≡ ok (some m)
    → m.field_id ≡ f.id
unfolding encode_field
encode_field_id f v {m} e =
    let (sent, e1, e2) = >>=-eq-ok (encode_match f.match_type v f.bitwidth) _ e in
    let (x, is_x, same) = with_id_inv f.id sent m (ground arith) in
    sym (ap (λ (m : FieldMatch). m.field_id) same)

abbrev pub HasMatches : EntityMap MatchField → TableMatch → List FieldMatch → Type 0
HasMatches fields acc messages =
    (items : TableMatch) × (decode_matches fields messages acc ≡ ok (acc ++ items))
    × (encode_matches fields items ≡ ok messages)

cons-HasMatches :
    (fields : EntityMap MatchField) (key : Str) (f : MatchField) (v v' : FieldValue)
    (m : FieldMatch) (acc : TableMatch) (messages : List FieldMatch)
    → AreFields fields
    → get (name key) fields ≡ some f
    → alias f ≡ key
    → IsNew acc key
    → encode_field f v ≡ ok (some m)
    → decode_field f m ≡ ok v'
    → encode_field f v' ≡ ok (some m)
    → HasMatches fields (acc ++ (key, v') ∷ []) messages
    → HasMatches fields acc (m ∷ messages)
unfolding encode_matches decode_matches as_value_error append_some
cons-HasMatches fields key f v v' m acc messages h found own new encoded decoded again
      (items, d, e) =
    let by_id : get (id m.field_id) fields ≡ some f =
      ap (λ n. get (id n) fields) (encode_field_id f v encoded)
      ∙ get-IsIndexed (name key) fields h.indexed found in
    let set_here : put_item (alias f) v' acc ≡ acc ++ (key, v') ∷ [] =
      ap (λ k. put_item k v' acc) own ∙ put_item_new key v' acc new in
    (
      (key, v') ∷ items,
      rw (get_item-get (id m.field_id) fields by_id, decoded, set_here, d)
          (ap ok (append_assoc acc (key, v') items)),
      rw (get_item-get (name key) fields found, again, e) refl,
    )

pub encode_matches-HasMatches :
    (fields : EntityMap MatchField) (items acc : TableMatch) {messages : List FieldMatch}
    → AreFields fields
    → All (IsItem fields) items
    → Distinct (arg_names items)
    → All (IsNew acc) (arg_names items)
    → encode_matches fields items ≡ ok messages
    → HasMatches fields acc messages
unfolding encode_matches decode_matches append_some encode_item
encode_matches-HasMatches fields [] acc {messages} h k apart fresh e =
    let same : messages ≡ [] = ground arith in
    subst (HasMatches fields acc) (sym same) ([], ap ok (sym (append_nil acc)), refl)
encode_matches-HasMatches fields ((key, v) ∷ items) acc {messages} h ((own, network), k)
      (apart, aparts) (new, news) e =
    let (sent, e1, e2) = >>=-eq-ok (as_value_error (encode_item fields key v)) _ e in
    let (others, e3, e4) = >>=-eq-ok (encode_matches fields items) _ e2 in
    let (f, item, encoded) = >>=-eq-ok (get_item (name key) fields) _ (as_value_error_inv _ e1) in
    let found = get_item_inv (name key) fields item in
    subst (HasMatches fields acc) (ground arith) (
      by_sent sent others f found encoded e3
        (encode_matches-HasMatches fields items acc h k aparts news e3)
        (λ v'.
          encode_matches-HasMatches fields items (acc ++ (key, v') ∷ []) h k aparts
            (still-IsNew key v' acc (arg_names items) news apart) e3))
  where
    by_sent :
        (sent : Option FieldMatch) (others : List FieldMatch) (f : MatchField)
        → get (name key) fields ≡ some f
        → encode_field f v ≡ ok sent
        → encode_matches fields items ≡ ok others
        → HasMatches fields acc others
        → ((v' : FieldValue) → HasMatches fields (acc ++ (key, v') ∷ []) others)
        → HasMatches fields acc (append_some sent others)
    by_sent none others f found encoded rest skipped set_rest = skipped
    by_sent (some m) others f found encoded rest skipped set_rest =
        let (v', decoded, again) =
          encode_field-decode_field f v (h.wide (name key) f found) network encoded in
        cons-HasMatches fields key f v v' m acc others h found (own f found) new encoded decoded
          again (set_rest v')
