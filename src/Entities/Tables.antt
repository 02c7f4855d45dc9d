-- ===== src/Entities/Tables.antt =====
-- finsy/p4entity.py: P4TableMatch and P4TableEntry, with the meters and counters that they hold.
pub mod Matches
pub mod RoundTrip
use finsy.Prelude.{
  ℕ, zero, suc, Bool, true, false, Option, none, some, List, [], ◌∷◌, ◌++◌, Str, Bytes, codes, ◌==◌,
  if◌then◌else◌, str_eq,
}
use finsy.Prelude.{Result, ok, err, value_error, ◌>>=◌}
use finsy.Prelude.Int.{ℤ, pos}
use finsy.Text.{join}
use finsy.Schema.EntityMap.{EntityMap, id, name, get_item, iter}
use finsy.Schema.MatchField.{
  MatchField, alias, FieldValue, FieldMatch, encode_field, decode_field, format_field,
}
use finsy.Schema.Actions.{Table}
use finsy.Entities.{
  put_item, TableActionMessage, encode_table_action, encode_indirect, decode_table_action,
  EntryAction, direct, indirect,
}

-- P4TableMatch, a dict
abbrev pub TableMatch : Type 0
TableMatch = List (Str × FieldValue)

-- `except Exception as ex: raise ValueError(…)`
unfoldable pub as_value_error : {A : Type 0} → Result A → Result A
as_value_error (ok a) = ok a
as_value_error (err e) = err value_error

-- A field that matches anything adds nothing.
unfoldable pub append_some : Option FieldMatch → List FieldMatch → List FieldMatch
append_some none messages = messages
append_some (some message) messages = message ∷ messages

unfoldable pub encode_item : EntityMap MatchField → Str → FieldValue → Result (Option FieldMatch)
encode_item fields key value = do field ← get_item (name key) fields; encode_field field value

unfoldable pub encode_matches : EntityMap MatchField → TableMatch → Result (List FieldMatch)
unfolding encode_item
encode_matches fields [] = ok []
encode_matches fields ((key, value) ∷ items) =
    let rest = encode_matches fields items in
    (do
      first ← as_value_error (encode_item fields key value)
      others ← rest
      ok (append_some first others))

unfoldable pub decode_matches :
    EntityMap MatchField → List FieldMatch → TableMatch → Result TableMatch
decode_matches fields [] result = ok result
decode_matches fields (message ∷ messages) result = do
  field ← get_item (id message.field_id) fields
  value ← decode_field field message
  decode_matches fields messages (put_item (alias field) value result)

-- self.get(key, None), where a stored None is none too
unfoldable pub get_value : Str → TableMatch → Option FieldValue
get_value key [] = none
get_value key ((k, FieldValue.null) ∷ items) = if str_eq key k then none else get_value key items
get_value key ((k, value) ∷ items) = if str_eq key k then some value else get_value key items

shown_value : Option FieldValue → MatchField → Option Str → Result (Option Str)
shown_value (some value) field wildcard = do text ← format_field field value; ok (some text)
shown_value none field wildcard = ok wildcard

with_text : Str → Option Str → List (Str × Str) → List (Str × Str)
with_text key none shown = shown
with_text key (some text) shown = (key, text) ∷ shown

format_fields : List MatchField → TableMatch → Option Str → Result (List (Str × Str))
unfolding shown_value with_text
format_fields [] items wildcard = ok []
format_fields (field ∷ fields) items wildcard =
    let rest = format_fields fields items wildcard in
    (do
      text ← shown_value (get_value (alias field) items) field wildcard
      others ← rest
      ok (with_text (alias field) text others))

-- The fields of a table in their order, with the texts of their values.
unfoldable pub format_dict : Table → TableMatch → Option Str → Result (List (Str × Str))
unfolding format_fields
format_dict table items wildcard = format_fields (iter table.match_fields) items wildcard

assignments : List (Str × Str) → List Str
assignments [] = []
assignments ((key, text) ∷ shown) = (key ++ (codes "=" ++ text)) ∷ assignments shown

unfoldable pub format_str : Table → TableMatch → Option Str → Result Str
unfolding assignments
format_str table items wildcard = do
  shown ← format_dict table items wildcard
  ok (join (codes " ") (assignments shown))

-- P4MeterConfig and p4r.MeterConfig, P4CounterData and p4r.CounterData, P4MeterCounterData
pub record MeterConfig : Type 0 where
  pub cir : ℤ
  pub cburst : ℤ
  pub pir : ℤ
  pub pburst : ℤ
  pub eburst : ℤ

pub record CounterData : Type 0 where
  pub byte_count : ℤ
  pub packet_count : ℤ

pub record MeterCounterData : Type 0 where
  pub green : CounterData
  pub yellow : CounterData
  pub red : CounterData

-- P4TableEntry
pub record TableEntry : Type 0 where
  pub table_id : Str
  pub match : Option TableMatch
  pub action : Option EntryAction
  pub is_default_action : Bool
  pub priority : ℤ
  pub metadata : Bytes
  pub controller_metadata : ℕ
  pub meter_config : Option MeterConfig
  pub counter_data : Option CounterData
  pub meter_counter_data : Option MeterCounterData
  pub idle_timeout_ns : ℤ
  pub time_since_last_hit : Option ℤ
  pub is_const : Bool

-- p4r.TableEntry
pub record TableEntryMessage : Type 0 where
  pub table_id : ℕ
  pub match : List FieldMatch
  pub action : Option TableActionMessage
  pub is_default_action : Bool
  pub priority : ℤ
  pub metadata : Bytes
  pub controller_metadata : ℕ
  pub meter_config : Option MeterConfig
  pub counter_data : Option CounterData
  pub meter_counter_data : Option MeterCounterData
  pub idle_timeout_ns : ℤ
  pub time_since_last_hit : Option ℤ
  pub is_const : Bool

-- A wildcard request has the counters and the last hit only.
unfoldable pub encode_empty : TableEntry → TableEntryMessage
encode_empty e = record {
  table_id = 0;
  match = [];
  action = none;
  is_default_action = false;
  priority = pos 0;
  metadata = [];
  controller_metadata = 0;
  meter_config = none;
  counter_data = e.counter_data;
  meter_counter_data = none;
  idle_timeout_ns = pos 0;
  time_since_last_hit = e.time_since_last_hit;
  is_const = false;
}

-- P4TableEntry("")
unfoldable pub empty_entry : TableEntry
empty_entry = record {
  table_id = [];
  match = none;
  action = none;
  is_default_action = false;
  priority = pos 0;
  metadata = [];
  controller_metadata = 0;
  meter_config = none;
  counter_data = none;
  meter_counter_data = none;
  idle_timeout_ns = pos 0;
  time_since_last_hit = none;
  is_const = false;
}

unfoldable pub encode_entry_match : Table → Option TableMatch → Result (List FieldMatch)
encode_entry_match table none = ok []
encode_entry_match table (some items) = encode_matches table.match_fields items

unfoldable pub encode_entry_action : Table → EntryAction → Result TableActionMessage
encode_entry_action table (direct a) = encode_table_action table a
encode_entry_action table (indirect a) = encode_indirect table a

unfoldable pub encode_some_action : Table → Option EntryAction → Result (Option TableActionMessage)
encode_some_action table none = ok none
encode_some_action table (some a) = do message ← encode_entry_action table a; ok (some message)

unfoldable pub message_of :
    Table → TableEntry → List FieldMatch → Option TableActionMessage → TableEntryMessage
message_of table e fields action = record {
  table_id = table.id;
  match = fields;
  action = action;
  is_default_action = e.is_default_action;
  priority = e.priority;
  metadata = e.metadata;
  controller_metadata = e.controller_metadata;
  meter_config = e.meter_config;
  counter_data = e.counter_data;
  meter_counter_data = e.meter_counter_data;
  idle_timeout_ns = e.idle_timeout_ns;
  time_since_last_hit = e.time_since_last_hit;
  is_const = e.is_const;
}

unfoldable pub encode_named : Table → TableEntry → Result TableEntryMessage
encode_named table e = do
  fields ← encode_entry_match table e.match
  action ← encode_some_action table e.action
  ok (message_of table e fields action)

unfoldable pub encode_by_id : EntityMap Table → TableEntry → Str → Result TableEntryMessage
encode_by_id tables e [] = ok (encode_empty e)
encode_by_id tables e (c ∷ s) = do table ← get_item (name (c ∷ s)) tables; encode_named table e

unfoldable pub encode_entry : EntityMap Table → TableEntry → Result TableEntryMessage
encode_entry tables e = encode_by_id tables e e.table_id

-- An empty list of fields is decoded as None.
unfoldable pub decode_entry_match : Table → List FieldMatch → Result (Option TableMatch)
decode_entry_match table [] = ok none
decode_entry_match table (message ∷ messages) = do
  items ← decode_matches table.match_fields (message ∷ messages) []
  ok (some items)

unfoldable pub decode_some_action : Table → Option TableActionMessage → Result (Option EntryAction)
decode_some_action table none = ok none
decode_some_action table (some message) = do a ← decode_table_action table message; ok (some a)

unfoldable pub entry_of :
    Table → TableEntryMessage → Option TableMatch → Option EntryAction → TableEntry
entry_of table m items action = record {
  table_id = table.alias;
  match = items;
  action = action;
  is_default_action = m.is_default_action;
  priority = m.priority;
  metadata = m.metadata;
  controller_metadata = m.controller_metadata;
  meter_config = m.meter_config;
  counter_data = m.counter_data;
  meter_counter_data = m.meter_counter_data;
  idle_timeout_ns = m.idle_timeout_ns;
  time_since_last_hit = m.time_since_last_hit;
  is_const = m.is_const;
}

unfoldable pub decode_named : Table → TableEntryMessage → Result TableEntry
decode_named table m = do
  items ← decode_entry_match table m.match
  action ← decode_some_action table m.action
  ok (entry_of table m items action)

unfoldable pub decode_entry : EntityMap Table → TableEntryMessage → Result TableEntry
decode_entry tables m =
    if m.table_id == 0
    then ok empty_entry
    else (do table ← get_item (id m.table_id) tables; decode_named table m)
