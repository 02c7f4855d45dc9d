-- ===== src/Entities/Tables/RoundTrip.antt =====
-- Table entries: what they are encoded as is decoded, and encoding it gives the same message.
use finsy.Prelude.{
  ◌<◌, ◌≡◌, refl, ap, sym, ◌∙◌, subst, Option, none, some, List, [], ◌∷◌, Str, All, length,
  ne→==_false,
}
use finsy.Prelude.{arith, ok, >>=-eq-ok}
use finsy.Prelude.Int.{pos}
use finsy.Schema.DataTypes.Lookup.{Distinct}
use finsy.Schema.EntityMap.{EntityMap, Key, id, name, get, get_item}
use finsy.Schema.EntityMap.Indexed.{IsIndexed, get-IsIndexed}
use finsy.Schema.MatchField.{FieldValue, FieldMatch}
use finsy.Schema.Actions.{Table, field_entity, action_entity, table_entity}
use finsy.Entities.{
  ActionMessage, TableAction, encode_action, TableActionMessage, encode_table_action,
  decode_table_action, EntryAction, direct, indirect, weight, no_watch, promote, ProfileAction,
  encode_actions, profile_action,
}
use finsy.Entities.Actions.{
  AreActions, arg_names, all-IsNew, get_item_inv, get_item-get, encode_action-decode_action,
}
use finsy.Entities.Indirect.{
  IsApart, encode_actions-HasSet, set-HasIndirect, encode_indirect-decode_table_action,
}
use finsy.Entities.Tables.{
  TableMatch, TableEntry, TableEntryMessage, encode_entry_match, encode_entry_action,
  encode_some_action, encode_named, encode_by_id, message_of, entry_of, encode_entry,
  decode_entry_match, decode_some_action, decode_named, decode_entry,
}
use finsy.Entities.Tables.Matches.{AreFields, IsItem, HasMatches, encode_matches-HasMatches}

-- The match of an entry, where an empty one and none are the same
abbrev pub IsMatch : Table → Option TableMatch → Type 0
IsMatch table none = Unit
IsMatch table (some items) = All (IsItem table.match_fields) items × Distinct (arg_names items)

abbrev HasEntryMatch : Table → List FieldMatch → Type 0
HasEntryMatch table messages =
    (items : Option TableMatch) × (decode_entry_match table messages ≡ ok items)
    × (encode_entry_match table items ≡ ok messages)

messages-HasEntryMatch :
    (table : Table) (messages : List FieldMatch)
    → HasMatches table.match_fields [] messages
    → HasEntryMatch table messages
unfolding decode_entry_match encode_entry_match
messages-HasEntryMatch table [] has = (none, refl, refl)
messages-HasEntryMatch table (m ∷ messages) (items, decoded, again) =
    (some items, rw decoded refl, again)

encode_entry_match-HasEntryMatch :
    (table : Table) (items : Option TableMatch) {messages : List FieldMatch}
    → AreFields table.match_fields
    → IsMatch table items
    → encode_entry_match table items ≡ ok messages
    → HasEntryMatch table messages
unfolding encode_entry_match decode_entry_match
encode_entry_match-HasEntryMatch table none {messages} h k e =
    let same : messages ≡ [] = ground arith in
    subst (HasEntryMatch table) (sym same) (none, refl, refl)
encode_entry_match-HasEntryMatch table (some items) h (k, apart) e =
    messages-HasEntryMatch table _ (
      encode_matches-HasMatches table.match_fields items [] h k apart
        (all-IsNew FieldValue (arg_names items)) e)

-- The action of an entry names no argument twice.
abbrev pub IsEntryAction : EntryAction → Type 0
IsEntryAction (direct a) = Distinct (arg_names a.args)
IsEntryAction (indirect a) = IsApart a.action_set

abbrev HasEntryAction : Table → TableActionMessage → Type 0
HasEntryAction table message =
    (a : EntryAction) × (decode_table_action table message ≡ ok a)
    × (encode_entry_action table a ≡ ok message)

promote-HasEntryAction :
    (table : Table) (profile : Option Str) (a : TableAction) (m : ActionMessage)
    → AreActions table.actions
    → Distinct (arg_names a.args)
    → encode_action table.actions a ≡ ok m
    → table.action_profile ≡ profile
    → HasEntryAction table (promote profile m)
unfolding promote encode_entry_action encode_table_action decode_table_action encode_actions
    profile_action
promote-HasEntryAction table none a m h apart e no_profile =
    let (a', decoded, again, _) = encode_action-decode_action table.actions a h apart e in
    (direct a', rw decoded refl, rw again (ap (λ p. ok (promote p m)) no_profile))
promote-HasEntryAction table (some profile) a m h apart e has_profile =
    let message : ProfileAction = record { action = m; weight = pos 1; watch_kind = no_watch } in
    let set =
      encode_actions-HasSet table.actions ((weight (pos 1), a) ∷ []) {messages = message ∷ []} h
        (apart, tt) (rw e refl) in
    let (a', decoded, again) = set-HasIndirect table (message ∷ []) set in
    (indirect a', decoded, again)

encode_entry_action-HasEntryAction :
    (table : Table) (a : EntryAction) {message : TableActionMessage}
    → AreActions table.actions
    → IsEntryAction a
    → encode_entry_action table a ≡ ok message
    → HasEntryAction table message
unfolding encode_entry_action encode_table_action
encode_entry_action-HasEntryAction table (direct a) {message} h apart e =
    let (m, e1, e2) = >>=-eq-ok (encode_action table.actions a) _ e in
    let same : message ≡ promote table.action_profile m = ground arith in
    subst (HasEntryAction table) (sym same)
      (promote-HasEntryAction table table.action_profile a m h apart e1 refl)
encode_entry_action-HasEntryAction table (indirect a) h apart e =
    let (a', decoded, again) = encode_indirect-decode_table_action table a h apart e in
    (indirect a', decoded, again)

abbrev pub IsSomeAction : Option EntryAction → Type 0
IsSomeAction none = Unit
IsSomeAction (some a) = IsEntryAction a

abbrev HasSomeAction : Table → Option TableActionMessage → Type 0
HasSomeAction table message =
    (a : Option EntryAction) × (decode_some_action table message ≡ ok a)
    × (encode_some_action table a ≡ ok message)

encode_some_action-HasSomeAction :
    (table : Table) (a : Option EntryAction) {message : Option TableActionMessage}
    → AreActions table.actions
    → IsSomeAction a
    → encode_some_action table a ≡ ok message
    → HasSomeAction table message
unfolding encode_some_action decode_some_action
encode_some_action-HasSomeAction table none {message} h k e =
    let same : message ≡ none = ground arith in
    subst (HasSomeAction table) (sym same) (none, refl, refl)
encode_some_action-HasSomeAction table (some a) {message} h k e =
    let (m, e1, e2) = >>=-eq-ok (encode_entry_action table a) _ e in
    let (a', decoded, again) = encode_entry_action-HasEntryAction table a h k e1 in
    let same : message ≡ some m = ground arith in
    subst (HasSomeAction table) (sym same) (some a', rw decoded refl, rw again refl)

-- The tables of a schema: they are found by their IDs, which are not 0, and by their aliases, which are
-- not empty; their fields and actions are found likewise.
pub record AreTables (tables : EntityMap Table) : Type 0 where
  pub indexed : IsIndexed tables
  pub numbered : (key : Key) (t : Table) → get key tables ≡ some t → 0 < t.id
  pub named : (key : Key) (t : Table) → get key tables ≡ some t → 0 < length t.alias
  pub aliased :
      (key : Key) (t : Table) → get key tables ≡ some t → get (name t.alias) tables ≡ some t
  pub with_fields : (key : Key) (t : Table) → get key tables ≡ some t → AreFields t.match_fields
  pub with_actions : (key : Key) (t : Table) → get key tables ≡ some t → AreActions t.actions

-- The message is decoded, and encoding the entry gives it again.
abbrev HasEntry : EntityMap Table → TableEntryMessage → Type 0
HasEntry tables m =
    (e : TableEntry) × (decode_entry tables m ≡ ok e) × (encode_entry tables e ≡ ok m)

encode_by_id_lem :
    (tables : EntityMap Table) (e : TableEntry) (s : Str) {t : Table}
    → 0 < length s
    → get_item (name s) tables ≡ ok t
    → encode_by_id tables e s ≡ encode_named t e
unfolding encode_by_id
encode_by_id_lem tables e [] h found = absurd (omega arith)
encode_by_id_lem tables e (c ∷ s) h found = rw found refl

encode_by_id_inv :
    (tables : EntityMap Table) (e : TableEntry) (s : Str) {m : TableEntryMessage}
    → 0 < length s
    → encode_by_id tables e s ≡ ok m
    → (t : Table) × (get_item (name s) tables ≡ ok t) × (encode_named t e ≡ ok m)
unfolding encode_by_id
encode_by_id_inv tables e [] h sent = absurd (omega arith)
encode_by_id_inv tables e (c ∷ s) h sent = >>=-eq-ok (get_item (name (c ∷ s)) tables) _ sent

parts-HasEntry :
    (tables : EntityMap Table) (key : Key) (t : Table) (e : TableEntry) (fields : List FieldMatch)
    (sent : Option TableActionMessage)
    → AreTables tables
    → get key tables ≡ some t
    → HasEntryMatch t fields
    → HasSomeAction t sent
    → HasEntry tables (message_of t e fields sent)
unfolding encode_named decode_named encode_entry decode_entry message_of entry_of
parts-HasEntry tables key t e fields sent h found (items, d, a) (a', d', again) =
    let by_id = get_item-get (id t.id) tables (get-IsIndexed key tables h.indexed found) in
    let by_alias = get_item-get (name t.alias) tables (h.aliased key t found) in
    let entry = entry_of t (message_of t e fields sent) items a' in
    (
      entry,
      rw (ne→==_false t.id (h.numbered key t found), by_id, d, d') refl,
      encode_by_id_lem tables entry t.alias (h.named key t found) by_alias ∙ rw (a, again) refl,
    )

encode_named-HasEntry :
    (tables : EntityMap Table) (key : Key) (t : Table) (e : TableEntry) {m : TableEntryMessage}
    → AreTables tables
    → get key tables ≡ some t
    → IsMatch t e.match
    → IsSomeAction e.action
    → encode_named t e ≡ ok m
    → HasEntry tables m
unfolding encode_named
encode_named-HasEntry tables key t e {m} h found k apart encoded =
    let (fields, e1, e2) = >>=-eq-ok (encode_entry_match t e.match) _ encoded in
    let (sent, e3, e4) = >>=-eq-ok (encode_some_action t e.action) _ e2 in
    let same : m ≡ message_of t e fields sent = ground arith in
    subst (HasEntry tables) (sym same) (
      parts-HasEntry tables key t e fields sent h found
        (encode_entry_match-HasEntryMatch t e.match (h.with_fields key t found) k e1)
        (encode_some_action-HasSomeAction t e.action (h.with_actions key t found) apart e3))

-- For the tables of a schema in which tables, match fields, actions and parameters are found by
-- their IDs, tables and actions by their aliases as well, and parameters by no name but their
-- own, where no table has the ID 0 or an empty alias, and where every match field and parameter
-- has at least one bit, so that none is a text: an entry that names its table, with a match
-- that names each field once, by its alias, and holds no networks but those that ipaddress
-- makes, and with actions that name no argument twice, is decoded if it is encoded, and
-- encoding what was decoded gives the same message.
pub encode_entry-decode_entry :
    (tables : EntityMap Table) (e : TableEntry) {m : TableEntryMessage}
    → AreTables tables
    → 0 < length e.table_id
    → ((t : Table) → get (name e.table_id) tables ≡ some t → IsMatch t e.match)
    → IsSomeAction e.action
    → encode_entry tables e ≡ ok m
    → (e' : TableEntry) × (decode_entry tables m ≡ ok e') × (encode_entry tables e' ≡ ok m)
unfolding encode_entry
encode_entry-decode_entry tables e h some_table k apart sent =
    let (t, item, e1) = encode_by_id_inv tables e e.table_id some_table sent in
    let found = get_item_inv (name e.table_id) tables item in
    encode_named-HasEntry tables (name e.table_id) t e h found (k t found) apart e1
