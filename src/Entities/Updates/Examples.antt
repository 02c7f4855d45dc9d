-- ===== src/Entities/Updates/Examples.antt =====
-- Runs of updates, and the witness of the property of nested lists.
use finsy.Prelude.{ℕ, ◌≡◌, refl, [], ◌∷◌, ok, err, value_error, ◌↔◌}
use finsy.Schema.EntityMap.{empty_map}
use finsy.Entities.Resources.{Schema}
use finsy.Entities.Replication.{port, encode_multicast, encode_replicas, encode_replica}
use finsy.Entities.Dispatch.{
  P4Entity, multicast_group_entry, packet_replication_engine_entry, multicast_group, encode,
}
use finsy.Entities.Updates.{
  unspecified, insert, modify, delete, Update, specify, invert, is_modify_only, specified,
  with_type, encode_update, request, pending, sent_update, sent_request, encode_item, UpdateList,
  leaf, nested, done, next, flatten, encode_items, encode_updates,
}
use finsy.Entities.Updates.Outcome.{Sends, encode_updates_iff}

abbrev no_schema : Schema
no_schema = record {
  tables = empty_map;
  actions = empty_map;
  registers = empty_map;
  meters = empty_map;
  counters = empty_map;
  digests = empty_map;
  action_profiles = empty_map;
}

abbrev flood : P4Entity
flood =
    multicast_group_entry (record { multicast_group_id = 1; replicas = port 5 ∷ []; metadata = [] })

-- A group to insert, in a list of a list, and a request after it; requests are numbers here.
abbrev updates : UpdateList ℕ
updates = nested (
    next (nested (next (leaf (pending (record { entity = flood; update_type = insert }))) done))
      (next (leaf (request 9)) done))

abbrev flood_sent : Update
flood_sent = record {
  update_type = insert;
  message =
      packet_replication_engine_entry (
        multicast_group (record { multicast_group_id = 1; replicas = (5, 0) ∷ []; metadata = [] }));
}

encode_updates_run :
    encode_updates no_schema updates ≡ ok (sent_update flood_sent ∷ sent_request 9 ∷ [])
unfolding encode_updates flatten encode_items encode_item encode_update is_modify_only with_type
    encode encode_multicast encode_replicas encode_replica
encode_updates_run = refl

encode_updates_iff_example :
    (encode_updates no_schema updates ≡ ok (sent_update flood_sent ∷ sent_request 9 ∷ []))
    ↔ Sends no_schema updates (sent_update flood_sent ∷ sent_request 9 ∷ [])
encode_updates_iff_example =
    encode_updates_iff no_schema updates (sent_update flood_sent ∷ sent_request 9 ∷ [])

-- An update type is given once, and an entity is not sent without one.
given_once_run :
    (specify insert (record { entity = flood; update_type = delete }) ≡ err value_error)
    × (invert (record { entity = flood; update_type = unspecified })
        ≡ ok (record { entity = flood; update_type = modify }))
    × (encode_update no_schema (record { entity = flood; update_type = unspecified })
        ≡ err value_error)
unfolding specify invert is_modify_only specified encode_update with_type
given_once_run = (refl, refl, refl)
