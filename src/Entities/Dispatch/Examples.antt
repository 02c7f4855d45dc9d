-- ===== src/Entities/Dispatch/Examples.antt =====
-- A small schema, a group of its action profile, and the witness of the property of entities of every kind.
use finsy.Prelude.{◌≡◌, refl, some, [], ◌∷◌, codes, ok, err, value_error, length, ◌<◌, arith}
use finsy.Prelude.Int.{pos}
use finsy.Bytes.{to_bytes, be_bytes, lstrip, from_bytes_after}
use finsy.Values.Masks.{p4r_minimum_string_size, p4r_truncate}
use finsy.Values.Exact.{encode_masked, encode_number, exact_int, in_width, apply_mask}
use finsy.Schema.EntityMap.{EntityMap, name, get, get_item, empty_map}
use finsy.Schema.EntityMap.Indexed.{get-All}
use finsy.Schema.DataTypes.Nested.{P4Type}
use finsy.Schema.DataTypes.Codable.{IsCodable}
use finsy.Schema.Actions.{Action, Table}
use finsy.Entities.{weight, watched, no_watch, watch_port, encode_watch_port}
use finsy.Entities.Actions.{AreActions, AreParams}
use finsy.Entities.Tables.Matches.{AreFields}
use finsy.Entities.Resources.{Resource, Schema, resource_entity, find_named}
use finsy.Entities.Resources.Found.{AreResources}
use finsy.Entities.Profiles.{
  ProfileGroup, ProfileGroupMessage, weighted, encode_group_member, encode_group_members,
  encode_some_members, group_message, encode_group,
}
use finsy.Entities.Dispatch.{
  P4Entity, action_profile_group, EntityMessage, no_entity, packet_replication_engine_entry,
  no_replication, encode, decode_entity,
}
use finsy.Entities.Dispatch.RoundTrip.{IsSchema, encode-decode_entity}

abbrev profile : Resource (Unit {0})
profile = record { id = 12; name = codes "in.ecmp"; alias = codes "ecmp"; type_spec = tt }

abbrev profiles : EntityMap (Resource (Unit {0}))
profiles = record {
  by_name = (codes "in.ecmp", profile) ∷ (codes "ecmp", profile) ∷ [];
  by_id = (12, profile) ∷ [];
}

abbrev schema : Schema
schema = record {
  tables = empty_map;
  actions = empty_map;
  registers = empty_map;
  meters = empty_map;
  counters = empty_map;
  digests = empty_map;
  action_profiles = profiles;
}

empty-AreResources : {T : Type 0} → AreResources {T = T} empty_map
empty-AreResources {T} = record {
  indexed = record { ids = tt; names = tt };
  numbered = λ key r found. get-All (λ (r : Resource T). 0 < r.id) key empty_map tt tt found;
  named = λ key r found. get-All (λ (r : Resource T). 0 < length r.alias) key empty_map tt tt found;
  aliased = λ key r found.
      get-All (λ (r : Resource T). get (name r.alias) empty_map ≡ some r) key empty_map tt tt found;
}

profiles-AreResources : AreResources profiles
unfolding get
profiles-AreResources = record {
  indexed = record { ids = (refl, tt); names = (refl, (refl, tt)) };
  numbered = λ key r found.
      get-All (λ r. 0 < r.id) key profiles (omega arith, tt) (omega arith, (omega arith, tt)) found;
  named = λ key r found.
      get-All (λ r. 0 < length r.alias) key profiles (omega arith, tt)
        (omega arith, (omega arith, tt)) found;
  aliased = λ key r found.
      get-All (λ r. get (name r.alias) profiles ≡ some r) key profiles (refl, tt) (refl, (refl, tt))
        found;
}

schema-IsSchema : IsSchema schema
schema-IsSchema = record {
  tables = record {
    indexed = record { ids = tt; names = tt };
    numbered = λ key t found. get-All (λ (t : Table). 0 < t.id) key empty_map tt tt found;
    named = λ key t found. get-All (λ (t : Table). 0 < length t.alias) key empty_map tt tt found;
    aliased = λ key t found.
        get-All (λ (t : Table). get (name t.alias) empty_map ≡ some t) key empty_map tt tt found;
    with_fields =
        λ key t found. get-All (λ (t : Table). AreFields t.match_fields) key empty_map tt tt found;
    with_actions =
        λ key t found. get-All (λ (t : Table). AreActions t.actions) key empty_map tt tt found;
  };
  actions = record {
    indexed = record { ids = tt; names = tt };
    aliased = λ key a found.
        get-All (λ (a : Action). get (name a.alias) empty_map ≡ some a) key empty_map tt tt found;
    with_params =
        λ key a found. get-All (λ (a : Action). AreParams a.params) key empty_map tt tt found;
  };
  registers = record {
    resources = empty-AreResources;
    codable = λ key r found.
        get-All (λ (r : Resource P4Type). IsCodable r.type_spec) key empty_map tt tt found;
  };
  meters = empty-AreResources;
  counters = empty-AreResources;
  digests = empty-AreResources;
  action_profiles = profiles-AreResources;
}

-- Two members, the second with a port that is watched
abbrev two_members : ProfileGroup
two_members = record {
  action_profile_id = codes "ecmp";
  group_id = 3;
  max_size = pos 4;
  members = some (
      record { member_id = 1; weight = weight (pos 2) }
      ∷ record { member_id = 2; weight = watched (pos 1) (pos 6) }
      ∷ []);
}

abbrev group_sent : ProfileGroupMessage
group_sent = record {
  action_profile_id = 12;
  group_id = 3;
  members =
      record { member_id = 1; weight = pos 2; watch_kind = no_watch }
      ∷ record { member_id = 2; weight = pos 1; watch_kind = watch_port (6 ∷ []) }
      ∷ [];
  max_size = pos 4;
}

encode_group_run :
    encode schema (action_profile_group two_members) ≡ ok (EntityMessage.group_message group_sent)
unfolding encode encode_group find_named get_item get group_message encode_some_members
    encode_group_members encode_group_member weighted encode_watch_port encode_masked encode_number
    exact_int in_width apply_mask to_bytes be_bytes lstrip p4r_minimum_string_size p4r_truncate
    from_bytes_after
encode_group_run = refl

encode-decode_entity_example :
    (e : P4Entity) × (decode_entity schema (EntityMessage.group_message group_sent) ≡ ok e)
    × (encode schema e ≡ ok (EntityMessage.group_message group_sent))
encode-decode_entity_example =
    encode-decode_entity schema (action_profile_group two_members) schema-IsSchema tt
      encode_group_run

missing_run :
    (decode_entity schema no_entity ≡ err value_error)
    × (decode_entity schema (packet_replication_engine_entry no_replication) ≡ err value_error)
unfolding decode_entity
missing_run = (refl, refl)
