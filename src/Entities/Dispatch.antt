-- ===== src/Entities/Dispatch.antt =====
-- finsy/p4entity.py: the entities by kind, their updates, and the dispatch of what is decoded.
pub mod RoundTrip
mod Examples
use finsy.Prelude.{Result, ok, err, value_error, ◌>>=◌}
use finsy.Entities.Tables.{TableEntry, TableEntryMessage, encode_entry, decode_entry}
use finsy.Entities.Resources.{
  Schema, RegisterEntry, RegisterMessage, encode_register, decode_register, MeterEntry,
  MeterMessage, encode_meter, decode_meter, CounterEntry, CounterMessage, encode_counter,
  decode_counter, DigestEntry, DigestMessage, encode_digest, decode_digest,
}
use finsy.Entities.Profiles.{
  ProfileMember, ProfileMemberMessage, encode_member, decode_member, ProfileGroup,
  ProfileGroupMessage, encode_group, decode_group,
}
use finsy.Entities.Replication.{
  MulticastGroupEntry, MulticastGroupMessage, encode_multicast, decode_multicast, CloneSessionEntry,
  CloneSessionMessage, encode_clone, decode_clone,
}

-- The entities of the kinds that are modelled
pub data P4Entity : Type 0 where
  table_entry : TableEntry → P4Entity
  register_entry : RegisterEntry → P4Entity
  meter_entry : MeterEntry → P4Entity
  counter_entry : CounterEntry → P4Entity
  digest_entry : DigestEntry → P4Entity
  action_profile_member : ProfileMember → P4Entity
  action_profile_group : ProfileGroup → P4Entity
  multicast_group_entry : MulticastGroupEntry → P4Entity
  clone_session_entry : CloneSessionEntry → P4Entity

-- The `type` of a p4r.PacketReplicationEngineEntry
pub data ReplicationMessage : Type 0 where
  no_replication : ReplicationMessage
  multicast_group : MulticastGroupMessage → ReplicationMessage
  clone_session : CloneSessionMessage → ReplicationMessage

-- The `entity` of a p4r.Entity
pub data EntityMessage : Type 0 where
  no_entity : EntityMessage
  table_message : TableEntryMessage → EntityMessage
  register_message : RegisterMessage → EntityMessage
  meter_message : MeterMessage → EntityMessage
  counter_message : CounterMessage → EntityMessage
  digest_message : DigestMessage → EntityMessage
  member_message : ProfileMemberMessage → EntityMessage
  group_message : ProfileGroupMessage → EntityMessage
  packet_replication_engine_entry : ReplicationMessage → EntityMessage

unfoldable pub encode : Schema → P4Entity → Result EntityMessage
encode s (table_entry e) = do m ← encode_entry s.tables e; ok (table_message m)
encode s (register_entry e) = do m ← encode_register s e; ok (register_message m)
encode s (meter_entry e) = do m ← encode_meter s e; ok (meter_message m)
encode s (counter_entry e) = do m ← encode_counter s e; ok (counter_message m)
encode s (digest_entry e) = do m ← encode_digest s e; ok (digest_message m)
encode s (action_profile_member e) = do m ← encode_member s e; ok (member_message m)
encode s (action_profile_group e) = do m ← encode_group s e; ok (group_message m)
encode s (multicast_group_entry e) =
    ok (packet_replication_engine_entry (multicast_group (encode_multicast e)))
encode s (clone_session_entry e) =
    ok (packet_replication_engine_entry (clone_session (encode_clone e)))

unfoldable pub decode_entity : Schema → EntityMessage → Result P4Entity
decode_entity s no_entity = err value_error
decode_entity s (table_message m) = do e ← decode_entry s.tables m; ok (table_entry e)
decode_entity s (register_message m) = do e ← decode_register s m; ok (register_entry e)
decode_entity s (meter_message m) = do e ← decode_meter s m; ok (meter_entry e)
decode_entity s (counter_message m) = do e ← decode_counter s m; ok (counter_entry e)
decode_entity s (digest_message m) = do e ← decode_digest s m; ok (digest_entry e)
decode_entity s (member_message m) = do e ← decode_member s m; ok (action_profile_member e)
decode_entity s (group_message m) = do e ← decode_group s m; ok (action_profile_group e)
decode_entity s (packet_replication_engine_entry no_replication) = err value_error
decode_entity s (packet_replication_engine_entry (multicast_group m)) =
    ok (multicast_group_entry (decode_multicast m))
decode_entity s (packet_replication_engine_entry (clone_session m)) =
    ok (clone_session_entry (decode_clone m))
