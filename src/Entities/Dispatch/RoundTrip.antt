-- ===== src/Entities/Dispatch/RoundTrip.antt =====
-- Entities of every kind that is modelled: what they are encoded as is decoded, and encoding it gives the
-- same message.
use finsy.Prelude.{◌≡◌, ◌∙◌, refl, ap, sym, subst, some, length, ◌<◌}
use finsy.Prelude.{arith, Result, ok, >>=-eq-ok, ◌>>=◌}
use finsy.Schema.EntityMap.{name, get}
use finsy.Schema.Actions.{Table, table_entity}
use finsy.Entities.Actions.{AreActions}
use finsy.Entities.Tables.{encode_entry, decode_entry}
use finsy.Entities.Tables.RoundTrip.{AreTables, IsMatch, IsSomeAction, encode_entry-decode_entry}
use finsy.Entities.Resources.{
  Schema, encode_register, decode_register, encode_meter, decode_meter, encode_counter,
  decode_counter, encode_digest, decode_digest,
}
use finsy.Entities.Resources.Found.{AreResources}
use finsy.Entities.Resources.RoundTrip.{
  AreRegisters, register_again, meter_again, counter_again, digest_again,
}
use finsy.Entities.Profiles.{encode_member, decode_member, encode_group, decode_group}
use finsy.Entities.Profiles.RoundTrip.{IsMemberAction, member_again, group_again}
use finsy.Entities.Replication.{
  encode_multicast, decode_multicast, encode_clone, decode_clone, encode_replicas, replicas_again,
}
use finsy.Entities.Dispatch.{
  P4Entity, table_entry, register_entry, meter_entry, counter_entry, digest_entry,
  action_profile_member, action_profile_group, multicast_group_entry, clone_session_entry,
  EntityMessage, table_message, register_message, meter_message, counter_message, digest_message,
  member_message, group_message, packet_replication_engine_entry, multicast_group, clone_session,
  encode, decode_entity,
}

-- A schema in which everything is found by its ID and its alias
pub record IsSchema (s : Schema) : Type 0 where
  pub tables : AreTables s.tables
  pub actions : AreActions s.actions
  pub registers : AreRegisters s.registers
  pub meters : AreResources s.meters
  pub counters : AreResources s.counters
  pub digests : AreResources s.digests
  pub action_profiles : AreResources s.action_profiles

-- An entry that names its table, a match that names each field once by its alias, and actions that name no
-- argument twice
abbrev pub IsEntity : Schema → P4Entity → Type 0
IsEntity s (table_entry e) =
    (0 < length e.table_id)
    × ((t : Table) → get (name e.table_id) s.tables ≡ some t → IsMatch t e.match)
    × IsSomeAction e.action
IsEntity s (action_profile_member e) = IsMemberAction e.action
IsEntity s _ = Unit

abbrev HasEntity : Schema → EntityMessage → Type 0
HasEntity s m = (e : P4Entity) × (decode_entity s m ≡ ok e) × (encode s e ≡ ok m)

-- An entity of one kind, from the codec of that kind
kind_again :
    (s : Schema) {E M : Type 0} (send : E → Result M) (read : M → Result E) (entity : E → P4Entity)
    (message : M → EntityMessage) {m : EntityMessage}
    → ((m : M) → decode_entity s (message m) ≡ (read m >>= (λ e. ok (entity e))))
    → ((e : E) → encode s (entity e) ≡ (send e >>= (λ m. ok (message m))))
    → (e : E) → ((m : M) → send e ≡ ok m → (e' : E) × (read m ≡ ok e') × (send e' ≡ ok m))
    → encode s (entity e) ≡ ok m
    → HasEntity s m
kind_again s send read entity message {m} reads sends e round sent =
    let (m', e1, e2) = >>=-eq-ok (send e) _ (sym (sends e) ∙ sent) in
    let (e', decoded, again) = round m' e1 in
    let same : m ≡ message m' = ground arith in
    subst (HasEntity s) (sym same) (entity e', reads m' ∙ rw decoded refl, sends e' ∙ rw again refl)

-- For a schema whose tables and actions are as in the theorem on table entries, whose
-- registers, meters, counters, digests and action profiles are found by their IDs, which are
-- not 0, and by their aliases, which are not empty, and whose registers have a type that the
-- theorem on data types covers: an entity that is encoded, be it a table entry as in the
-- theorem on table entries, which names its table, a register, meter, counter or digest entry,
-- a member, whose action names no argument twice, or a group of an action profile, a multicast
-- group or a clone session, is decoded, and encoding what was decoded gives the same message.
pub encode-decode_entity :
    (s : Schema) (e : P4Entity) {m : EntityMessage}
    → IsSchema s
    → IsEntity s e
    → encode s e ≡ ok m
    → (e' : P4Entity) × (decode_entity s m ≡ ok e') × (encode s e' ≡ ok m)
unfolding encode decode_entity encode_multicast decode_multicast encode_clone decode_clone
encode-decode_entity s (table_entry e) h (named, match, action) sent =
    kind_again s (encode_entry s.tables) (decode_entry s.tables) table_entry table_message
      (λ m. refl) (λ e. refl) e
      (λ m sent. encode_entry-decode_entry s.tables e h.tables named match action sent) sent
encode-decode_entity s (register_entry e) h k sent =
    kind_again s (encode_register s) (decode_register s) register_entry register_message (λ m. refl)
      (λ e. refl) e (λ m sent. register_again s e h.registers sent) sent
encode-decode_entity s (meter_entry e) h k sent =
    kind_again s (encode_meter s) (decode_meter s) meter_entry meter_message (λ m. refl) (λ e. refl)
      e (λ m sent. meter_again s e h.meters sent) sent
encode-decode_entity s (counter_entry e) h k sent =
    kind_again s (encode_counter s) (decode_counter s) counter_entry counter_message (λ m. refl)
      (λ e. refl) e (λ m sent. counter_again s e h.counters sent) sent
encode-decode_entity s (digest_entry e) h k sent =
    kind_again s (encode_digest s) (decode_digest s) digest_entry digest_message (λ m. refl)
      (λ e. refl) e (λ m sent. digest_again s e h.digests sent) sent
encode-decode_entity s (action_profile_member e) h k sent =
    kind_again s (encode_member s) (decode_member s) action_profile_member member_message
      (λ m. refl) (λ e. refl) e (λ m sent. member_again s e h.action_profiles h.actions k sent) sent
encode-decode_entity s (action_profile_group e) h k sent =
    kind_again s (encode_group s) (decode_group s) action_profile_group group_message (λ m. refl)
      (λ e. refl) e (λ m sent. group_again s e h.action_profiles sent) sent
encode-decode_entity s (multicast_group_entry e) {m} h k sent =
    let rs = encode_replicas e.replicas in
    let same : m ≡ packet_replication_engine_entry (multicast_group (encode_multicast e)) =
      ground arith in
    subst (HasEntity s) (sym same) (
      multicast_group_entry (decode_multicast (encode_multicast e)),
      refl,
      ap
          (λ rs. ok (
            packet_replication_engine_entry (
              multicast_group (record {
                multicast_group_id = e.multicast_group_id;
                replicas = rs;
                metadata = e.metadata;
              }))))
          (replicas_again rs),
    )
encode-decode_entity s (clone_session_entry e) {m} h k sent =
    let rs = encode_replicas e.replicas in
    let same : m ≡ packet_replication_engine_entry (clone_session (encode_clone e)) =
      ground arith in
    subst (HasEntity s) (sym same) (
      clone_session_entry (decode_clone (encode_clone e)),
      refl,
      ap
          (λ rs. ok (
            packet_replication_engine_entry (
              clone_session (record {
                session_id = e.session_id;
                class_of_service = e.class_of_service;
                packet_length_bytes = e.packet_length_bytes;
                replicas = rs;
              }))))
          (replicas_again rs),
    )
