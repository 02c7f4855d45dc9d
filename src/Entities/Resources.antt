-- ===== src/Entities/Resources.antt =====
-- finsy/p4entity.py: the entries of registers, meters, counters and digests; finsy/p4schema.py: the parts of
-- a P4Schema that they read.
pub mod Found
pub mod RoundTrip
use finsy.Prelude.{
  ℕ, zero, suc, Bool, true, false, ◌&&◌, Option, none, some, [], ◌∷◌, Str, ◌==◌, if◌then◌else◌,
}
use finsy.Prelude.{Result, ok, ◌>>=◌}
use finsy.Prelude.Int.{ℤ, pos, negsuc, eqb_ℤ}
use finsy.Schema.EntityMap.{Entity, EntityMap, id, name, get_item}
use finsy.Schema.DataTypes.{Value}
use finsy.Schema.DataTypes.Messages.{P4Data}
use finsy.Schema.DataTypes.Nested.{P4Type, encode_data, decode_data}
use finsy.Schema.Actions.{Action, Table}
use finsy.Entities.Tables.{MeterConfig, CounterData, MeterCounterData}

-- P4Register, P4Meter, P4Counter, P4Digest and P4ActionProfile, with the type of their data
pub record Resource (T : Type 0) : Type 0 where
  pub id : ℕ
  pub name : Str
  pub alias : Str
  pub type_spec : T

instance abbrev pub resource_entity : {T : Type 0} → Entity (Resource T)
resource_entity = record { id_of = λ r. r.id; name_of = λ r. r.name; alias_of = λ r. some r.alias }

pub record Schema : Type 0 where
  pub tables : EntityMap Table
  pub actions : EntityMap Action
  pub registers : EntityMap (Resource P4Type)
  pub meters : EntityMap (Resource (Unit {0}))
  pub counters : EntityMap (Resource (Unit {0}))
  pub digests : EntityMap (Resource P4Type)
  pub action_profiles : EntityMap (Resource (Unit {0}))

-- An empty name and an ID of 0 are those of no resource: a wildcard.
unfoldable pub find_named :
    {T : Type 0} → EntityMap (Resource T) → Str → Result (Option (Resource T))
find_named m [] = ok none
find_named m (c ∷ s) = do r ← get_item (name (c ∷ s)) m; ok (some r)

unfoldable pub find_numbered :
    {T : Type 0} → EntityMap (Resource T) → ℕ → Result (Option (Resource T))
find_numbered m n = if n == 0 then ok none else (do r ← get_item (id n) m; ok (some r))

-- P4RegisterEntry and p4r.RegisterEntry
pub record RegisterEntry : Type 0 where
  pub register_id : Str
  pub index : Option ℤ
  pub entry_data : Option Value

pub record RegisterMessage : Type 0 where
  pub register_id : ℕ
  pub index : Option ℤ
  pub entry_data : Option P4Data

unfoldable pub encode_some_data : P4Type → Option Value → Result (Option P4Data)
encode_some_data typ none = ok none
encode_some_data typ (some v) = do d ← encode_data typ v; ok (some d)

unfoldable pub decode_some_data : P4Type → Option P4Data → Result (Option Value)
decode_some_data typ none = ok none
decode_some_data typ (some d) = do v ← decode_data typ d; ok (some v)

unfoldable pub register_message : Option (Resource P4Type) → RegisterEntry → Result RegisterMessage
register_message none e = ok (record { register_id = 0; index = none; entry_data = none })
register_message (some r) e = do
  d ← encode_some_data r.type_spec e.entry_data
  ok (record { register_id = r.id; index = e.index; entry_data = d })

unfoldable pub register_entry_of : Option (Resource P4Type) → RegisterMessage → Result RegisterEntry
register_entry_of none m = ok (record { register_id = []; index = none; entry_data = none })
register_entry_of (some r) m = do
  v ← decode_some_data r.type_spec m.entry_data
  ok (record { register_id = r.alias; index = m.index; entry_data = v })

unfoldable pub encode_register : Schema → RegisterEntry → Result RegisterMessage
encode_register s e = do r ← find_named s.registers e.register_id; register_message r e

unfoldable pub decode_register : Schema → RegisterMessage → Result RegisterEntry
decode_register s m = do r ← find_numbered s.registers m.register_id; register_entry_of r m

-- P4MeterEntry and P4CounterEntry, with their messages
pub record MeterEntry : Type 0 where
  pub meter_id : Str
  pub index : Option ℤ
  pub config : Option MeterConfig
  pub counter_data : Option MeterCounterData

pub record MeterMessage : Type 0 where
  pub meter_id : ℕ
  pub index : Option ℤ
  pub config : Option MeterConfig
  pub counter_data : Option MeterCounterData

unfoldable pub meter_message : Option (Resource (Unit {0})) → MeterEntry → MeterMessage
meter_message none e = record { meter_id = 0; index = none; config = none; counter_data = none }
meter_message (some r) e = record {
  meter_id = r.id;
  index = e.index;
  config = e.config;
  counter_data = e.counter_data;
}

unfoldable pub meter_entry_of : Option (Resource (Unit {0})) → MeterMessage → MeterEntry
meter_entry_of none m = record { meter_id = []; index = none; config = none; counter_data = none }
meter_entry_of (some r) m = record {
  meter_id = r.alias;
  index = m.index;
  config = m.config;
  counter_data = m.counter_data;
}

unfoldable pub encode_meter : Schema → MeterEntry → Result MeterMessage
encode_meter s e = do r ← find_named s.meters e.meter_id; ok (meter_message r e)

unfoldable pub decode_meter : Schema → MeterMessage → Result MeterEntry
decode_meter s m = do r ← find_numbered s.meters m.meter_id; ok (meter_entry_of r m)

pub record CounterEntry : Type 0 where
  pub counter_id : Str
  pub index : Option ℤ
  pub entry_data : Option CounterData

pub record CounterMessage : Type 0 where
  pub counter_id : ℕ
  pub index : Option ℤ
  pub entry_data : Option CounterData

unfoldable pub counter_message : Option (Resource (Unit {0})) → CounterEntry → CounterMessage
counter_message none e = record { counter_id = 0; index = none; entry_data = none }
counter_message (some r) e = record {
  counter_id = r.id;
  index = e.index;
  entry_data = e.entry_data;
}

unfoldable pub counter_entry_of : Option (Resource (Unit {0})) → CounterMessage → CounterEntry
counter_entry_of none m = record { counter_id = []; index = none; entry_data = none }
counter_entry_of (some r) m = record {
  counter_id = r.alias;
  index = m.index;
  entry_data = m.entry_data;
}

unfoldable pub encode_counter : Schema → CounterEntry → Result CounterMessage
encode_counter s e = do r ← find_named s.counters e.counter_id; ok (counter_message r e)

unfoldable pub decode_counter : Schema → CounterMessage → Result CounterEntry
decode_counter s m = do r ← find_numbered s.counters m.counter_id; ok (counter_entry_of r m)

-- P4DigestEntry, whose three numbers are the configuration, and p4r.DigestEntry.Config
pub record DigestConfig : Type 0 where
  pub max_list_size : ℤ
  pub max_timeout_ns : ℤ
  pub ack_timeout_ns : ℤ

abbrev pub no_config : DigestConfig
no_config = record { max_list_size = pos 0; max_timeout_ns = pos 0; ack_timeout_ns = pos 0 }

pub record DigestEntry : Type 0 where
  pub digest_id : Str
  pub config : DigestConfig

pub record DigestMessage : Type 0 where
  pub digest_id : ℕ
  pub config : Option DigestConfig

-- Three zeros are no configuration.
unfoldable pub is_no_config : DigestConfig → Bool
is_no_config c =
    eqb_ℤ c.max_list_size (pos 0)
    && eqb_ℤ c.max_timeout_ns (pos 0)
    && eqb_ℤ c.ack_timeout_ns (pos 0)

unfoldable pub some_config : DigestConfig → Option DigestConfig
some_config c = if is_no_config c then none else some c

unfoldable pub digest_message : Option (Resource P4Type) → DigestEntry → DigestMessage
digest_message none e = record { digest_id = 0; config = none }
digest_message (some r) e = record { digest_id = r.id; config = some_config e.config }

-- A configuration that is not set reads as zeros.
unfoldable pub or_no_config : Option DigestConfig → DigestConfig
or_no_config none = no_config
or_no_config (some c) = c

unfoldable pub digest_entry_of : Option (Resource P4Type) → DigestMessage → DigestEntry
digest_entry_of none m = record { digest_id = []; config = no_config }
digest_entry_of (some r) m = record { digest_id = r.alias; config = or_no_config m.config }

unfoldable pub encode_digest : Schema → DigestEntry → Result DigestMessage
encode_digest s e = do r ← find_named s.digests e.digest_id; ok (digest_message r e)

unfoldable pub decode_digest : Schema → DigestMessage → Result DigestEntry
decode_digest s m = do r ← find_numbered s.digests m.digest_id; ok (digest_entry_of r m)
