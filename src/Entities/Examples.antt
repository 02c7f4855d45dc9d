-- ===== src/Entities/Examples.antt =====
-- A small schema, runs of its entries, and the witnesses of the properties of entities.
use finsy.Prelude.{
  ℕ, ◌<◌, length, ◌≡◌, refl, sym, ap, subst, ◌∙◌, inl, inr, arith, none, some, [], ◌∷◌, Str, codes,
  str_eq, str_eq-eq, Bool-cases, ok,
}
use finsy.Prelude.Int.{pos}
use finsy.Bytes.{to_bytes, be_bytes, lstrip, from_bytes_after}
use finsy.Text.{split, join}
use finsy.Values.Masks.{p4r_minimum_string_size, p4r_truncate, and_int, all_ones}
use finsy.Values.Exact.{int, encode_masked, encode_number, exact_int, in_width, apply_mask}
use finsy.Values.Lpm.{encode_lpm, encode_prefixed}
use finsy.Schema.EntityMap.{EntityMap, name, get, get_item, len, iter}
use finsy.Schema.EntityMap.Indexed.{get-All}
use finsy.Schema.MatchField.{
  MatchField, lpm, lpm_match, pair, encode_field, encode_match, as_lpm, with_id, unless_any,
  make_alias, alias,
}
use finsy.Schema.Actions.{
  ActionParam, Action, Table, encode_param, param_entity, action_entity, field_entity, table_entity,
}
use finsy.Entities.{
  TableAction, ActionMessage, encode_args, encode_params, encode_action, weight, watched, no_watch,
  watch_port, TableActionMessage, action, action_profile_action_set, IndirectAction, direct,
  encode_indirect, encode_actions, profile_action, encode_watch_port, encode_table_action, promote,
}
use finsy.Entities.Actions.{AreParams, AreActions}
use finsy.Entities.Tables.{
  TableEntry, TableEntryMessage, encode_entry, decode_entry, encode_by_id, encode_named,
  encode_entry_match, encode_matches, encode_item, as_value_error, append_some, encode_some_action,
  encode_entry_action, message_of, empty_entry, format_str, format_dict, get_value,
}
use finsy.Entities.Tables.Matches.{AreFields}
use finsy.Entities.Tables.RoundTrip.{AreTables, IsMatch, encode_entry-decode_entry}

abbrev port : ActionParam
port = record { id = 1; name = codes "port"; bitwidth = 9; annotations = [] }

abbrev ports : EntityMap ActionParam
ports = record { by_name = (codes "port", port) ∷ []; by_id = (1, port) ∷ [] }

abbrev forward : Action
forward = record { id = 7; name = codes "in.forward"; alias = codes "forward"; params = ports }

abbrev actions : EntityMap Action
actions = record {
  by_name = (codes "in.forward", forward) ∷ (codes "forward", forward) ∷ [];
  by_id = (7, forward) ∷ [];
}

abbrev destination : MatchField
destination = record {
  id = 1;
  name = codes "dst";
  bitwidth = 32;
  match_type = lpm;
  annotations = [];
}

abbrev fields : EntityMap MatchField
fields = record { by_name = (codes "dst", destination) ∷ []; by_id = (1, destination) ∷ [] }

abbrev ipv4_table : Table
ipv4_table = record {
  id = 3;
  name = codes "in.ipv4";
  alias = codes "ipv4";
  match_fields = fields;
  actions = actions;
  action_profile = none;
}

abbrev tables : EntityMap Table
tables = record {
  by_name = (codes "in.ipv4", ipv4_table) ∷ (codes "ipv4", ipv4_table) ∷ [];
  by_id = (3, ipv4_table) ∷ [];
}

ports_own_names : (s : Str) (p : ActionParam) → get (name s) ports ≡ some p → p.name ≡ s
unfolding get
ports_own_names s p found = elim (Bool-cases (str_eq s (codes "port"))) [
  | inr other ↦ cc (rw other at found)
  | inl same ↦
      let own : port ≡ p = ground (arith, rw same at found) in
      sym (ap (λ (p : ActionParam). p.name) own) ∙ sym (str_eq-eq s (codes "port") same)
]

ports-AreParams : AreParams ports
ports-AreParams = record {
  indexed = record { ids = (refl, tt); names = (refl, tt) };
  own_names = ports_own_names;
  wide = λ key p found.
      get-All (λ p. 0 < p.bitwidth) key ports (omega arith, tt) (omega arith, tt) found;
}

actions-AreActions : AreActions actions
unfolding get
actions-AreActions = record {
  indexed = record { ids = (refl, tt); names = (refl, (refl, tt)) };
  aliased = λ key a found.
      get-All (λ a. get (name a.alias) actions ≡ some a) key actions (refl, tt) (refl, (refl, tt))
        found;
  with_params = λ key a found.
      get-All (λ a. AreParams a.params) key actions (ports-AreParams, tt)
        (ports-AreParams, (ports-AreParams, tt)) found;
}

fields-AreFields : AreFields fields
fields-AreFields = record {
  indexed = record { ids = (refl, tt); names = (refl, tt) };
  wide = λ key f found.
      get-All (λ f. 0 < f.bitwidth) key fields (omega arith, tt) (omega arith, tt) found;
}

abbrev forward_to : ℕ → TableAction
forward_to n = record { name = codes "forward"; args = (codes "port", int (pos n)) ∷ [] }

abbrev forward_5 : ActionMessage
forward_5 = record { action_id = 7; params = record { param_id = 1; value = 5 ∷ [] } ∷ [] }

encode_action_run : encode_action actions (forward_to 5) ≡ ok forward_5
unfolding encode_action encode_params encode_args encode_param get_item get len encode_masked
    encode_number exact_int in_width apply_mask to_bytes be_bytes lstrip p4r_minimum_string_size
    p4r_truncate from_bytes_after
encode_action_run = refl

tables-AreTables : AreTables tables
unfolding get
tables-AreTables = record {
  indexed = record { ids = (refl, tt); names = (refl, (refl, tt)) };
  numbered = λ key t found.
      get-All (λ t. 0 < t.id) key tables (omega arith, tt) (omega arith, (omega arith, tt)) found;
  named = λ key t found.
      get-All (λ t. 0 < length t.alias) key tables (omega arith, tt)
        (omega arith, (omega arith, tt)) found;
  aliased = λ key t found.
      get-All (λ t. get (name t.alias) tables ≡ some t) key tables (refl, tt) (refl, (refl, tt))
        found;
  with_fields = λ key t found.
      get-All (λ t. AreFields t.match_fields) key tables (fields-AreFields, tt)
        (fields-AreFields, (fields-AreFields, tt)) found;
  with_actions = λ key t found.
      get-All (λ t. AreActions t.actions) key tables (actions-AreActions, tt)
        (actions-AreActions, (actions-AreActions, tt)) found;
}

abbrev weighted : IndirectAction
weighted = record {
  action_set = some ((weight (pos 2), forward_to 5) ∷ (watched (pos 1) (pos 6), forward_to 5) ∷ []);
  member_id = none;
  group_id = none;
}

abbrev weighted_message : TableActionMessage
weighted_message = action_profile_action_set (
    record { action = forward_5; weight = pos 2; watch_kind = no_watch }
    ∷ record { action = forward_5; weight = pos 1; watch_kind = watch_port (6 ∷ []) }
    ∷ [])

encode_indirect_run : encode_indirect ipv4_table weighted ≡ ok weighted_message
unfolding encode_indirect encode_actions profile_action encode_watch_port encode_action
    encode_params encode_args encode_param get_item get len encode_masked encode_number exact_int
    in_width apply_mask to_bytes be_bytes lstrip p4r_minimum_string_size p4r_truncate
    from_bytes_after
encode_indirect_run = refl

-- The route to 10.0.0.0/8, given with a bit below the prefix.
abbrev route : TableEntry
route = record empty_entry {
  table_id = codes "ipv4";
  match = some ((codes "dst", pair (int (pos 167772161)) (int (pos 8))) ∷ []);
  action = some (direct (forward_to 5));
  priority = pos 4;
}

abbrev route_message : TableEntryMessage
route_message =
    message_of ipv4_table route
      (record { field_id = 1; match = lpm_match (10 ∷ 0 ∷ 0 ∷ 0 ∷ []) 8 } ∷ [])
      (some (action forward_5))

encode_entry_run : encode_entry tables route ≡ ok route_message
unfolding encode_entry encode_by_id encode_named encode_entry_match encode_matches encode_item
    as_value_error append_some encode_some_action encode_entry_action encode_table_action promote
    empty_entry encode_field encode_match as_lpm with_id unless_any encode_lpm encode_prefixed
    encode_action encode_params encode_args encode_param get_item get len encode_masked
    encode_number exact_int in_width apply_mask to_bytes be_bytes lstrip p4r_minimum_string_size
    p4r_truncate from_bytes_after and_int all_ones
encode_entry_run = refl

route-IsMatch : (t : Table) → get (name (codes "ipv4")) tables ≡ some t → IsMatch t route.match
unfolding get alias make_alias split
route-IsMatch t found =
    let own : ipv4_table ≡ t = ground arith in
    let by_alias : (f : MatchField)
        → get (name (codes "dst")) fields ≡ some f
        → alias f ≡ codes "dst" =
      λ f e. let same : destination ≡ f = ground arith in ap alias (sym same) in
    subst (λ t. IsMatch t route.match) own (((by_alias, tt), tt), (tt, tt))

encode_entry-decode_entry_example :
    (e : TableEntry) × (decode_entry tables route_message ≡ ok e)
    × (encode_entry tables e ≡ ok route_message)
unfolding empty_entry
encode_entry-decode_entry_example =
    encode_entry-decode_entry tables route tables-AreTables (omega arith) route-IsMatch (tt, tt)
      encode_entry_run

-- A field without a value is shown as the wildcard, where there is one.
format_str_run :
    (format_str ipv4_table [] none ≡ ok [])
    × (format_str ipv4_table [] (some (codes "*")) ≡ ok (codes "dst=*"))
unfolding format_str format_dict iter get_value alias make_alias split join
format_str_run = (refl, refl)
