-- ===== src/Entities/Resources/RoundTrip.antt =====
-- Entries of resources: what they are encoded as is decoded, and encoding it gives the same message.
use finsy.Prelude.{ℕ, ◌≡◌, refl, ap, sym, subst, Option, none, some, [], Str, inl, inr, Bool-cases}
use finsy.Prelude.{arith, ok, >>=-eq-ok, ◌>>=◌}
use finsy.Schema.DataTypes.{Value}
use finsy.Schema.DataTypes.Messages.{P4Data}
use finsy.Schema.DataTypes.Nested.{P4Type, encode_data}
use finsy.Schema.DataTypes.Codable.{IsCodable}
use finsy.Schema.DataTypes.RoundTrip.{encode_data-decode_data}
use finsy.Schema.EntityMap.{EntityMap, Key, name, get}
use finsy.Entities.Resources.{
  Resource, Schema, resource_entity, find_named, find_numbered, RegisterEntry, RegisterMessage,
  encode_some_data, decode_some_data, register_message, register_entry_of, encode_register,
  decode_register, MeterEntry, MeterMessage, meter_message, meter_entry_of, encode_meter,
  decode_meter, CounterEntry, CounterMessage, counter_message, counter_entry_of, encode_counter,
  decode_counter, DigestEntry, DigestMessage, DigestConfig, digest_message, digest_entry_of,
  encode_digest, decode_digest, is_no_config, or_no_config, some_config,
}
use finsy.Entities.Resources.Found.{
  AreResources, HasParts, entry_again, find_named-get, number_of, alias_of,
}

-- The types of the registers' data are those that the round trip of the data types covers.
pub record AreRegisters (m : EntityMap (Resource P4Type)) : Type 0 where
  pub resources : AreResources m
  pub codable : (key : Key) (r : Resource P4Type) → get key m ≡ some r → IsCodable r.type_spec

abbrev HasSomeData : P4Type → Option P4Data → Type 0
HasSomeData typ m =
    (v : Option Value) × (decode_some_data typ m ≡ ok v) × (encode_some_data typ v ≡ ok m)

some_data_again :
    (typ : P4Type) (v : Option Value) {m : Option P4Data}
    → IsCodable typ
    → encode_some_data typ v ≡ ok m
    → HasSomeData typ m
unfolding encode_some_data decode_some_data
some_data_again typ none {m} h e =
    let same : m ≡ none = ground arith in subst (HasSomeData typ) (sym same) (none, refl, refl)
some_data_again typ (some v) {m} h e =
    let (d, e1, e2) = >>=-eq-ok (encode_data typ v) _ e in
    let (v', decoded, again) = encode_data-decode_data typ v h e1 in
    let same : m ≡ some d = ground arith in
    subst (HasSomeData typ) (sym same) (some v', rw decoded refl, rw again refl)

abbrev HasRegister : Option (Resource P4Type) → RegisterMessage → Type 0
HasRegister = HasParts register_message register_entry_of (λ e. e.register_id) (λ m. m.register_id)

register_parts :
    (map : EntityMap (Resource P4Type)) (e : RegisterEntry) (r : Option (Resource P4Type))
    (m : RegisterMessage)
    → AreRegisters map
    → find_named map e.register_id ≡ ok r
    → register_message r e ≡ ok m
    → HasRegister r m
unfolding register_message register_entry_of
register_parts map e none m h found sent =
    let same : m ≡ record { register_id = 0; index = none; entry_data = none } = ground arith in
    subst (HasRegister none) (sym same) (record {
      entry = record { register_id = []; index = none; entry_data = none };
      numbered = refl;
      aliased = refl;
      decoded = refl;
      again = refl;
    })
register_parts map e (some r) m h found sent =
    let (d, e1, e2) = >>=-eq-ok (encode_some_data r.type_spec e.entry_data) _ sent in
    let codable = h.codable (name e.register_id) r (find_named-get map e.register_id found) in
    let (v, decoded, again) = some_data_again r.type_spec e.entry_data codable e1 in
    let same : m ≡ record { register_id = r.id; index = e.index; entry_data = d } = ground arith in
    subst (HasRegister (some r)) (sym same) (record {
      entry = record { register_id = r.alias; index = e.index; entry_data = v };
      numbered = refl;
      aliased = refl;
      decoded = rw decoded refl;
      again = rw again refl;
    })

pub register_again :
    (s : Schema) (e : RegisterEntry) {m : RegisterMessage}
    → AreRegisters s.registers
    → encode_register s e ≡ ok m
    → (e' : RegisterEntry) × (decode_register s m ≡ ok e') × (encode_register s e' ≡ ok m)
unfolding encode_register decode_register
register_again s e h sent =
    entry_again register_message register_entry_of (λ e. e.register_id) (λ m. m.register_id)
      s.registers e h.resources (λ r m found sent. register_parts s.registers e r m h found sent)
      sent

-- Meters, counters and digests: entries whose parts are always encoded
module _ {T E M : Type 0} (message : Option (Resource T) → E → M)
    (entry : Option (Resource T) → M → E) (key : E → Str) (number : M → ℕ) where
  record IsPlain (r : Option (Resource T)) : Type 0 where
    pub numbered : (e : E) → number (message r e) ≡ number_of r
    pub aliased : (m : M) → key (entry r m) ≡ alias_of r
    pub same : (e : E) → message r (entry r (message r e)) ≡ message r e

  plain_parts :
      (r : Option (Resource T)) (e : E) {m : M}
      → IsPlain r
      → ok (message r e) ≡ ok m
      → HasParts (λ r e. ok (message r e)) (λ r m. ok (entry r m)) key number r m
  plain_parts r e {m} p sent =
      let own : m ≡ message r e = ground arith in
      subst (HasParts (λ r e. ok (message r e)) (λ r m. ok (entry r m)) key number r) (sym own)
        (record {
          entry = entry r (message r e);
          numbered = p.numbered e;
          aliased = p.aliased (message r e);
          decoded = refl;
          again = ap ok (p.same e);
        })

  plain_again :
      (map : EntityMap (Resource T)) (e : E) {m : M}
      → ((r : Option (Resource T)) → IsPlain r)
      → AreResources map
      → (find_named map (key e) >>= (λ r. ok (message r e))) ≡ ok m
      → (e' : E) × ((find_numbered map (number m) >>= (λ r. ok (entry r m))) ≡ ok e')
        × ((find_named map (key e') >>= (λ r. ok (message r e'))) ≡ ok m)
  plain_again map e p h sent =
      entry_again (λ r e. ok (message r e)) (λ r m. ok (entry r m)) key number map e h
        (λ r m found sent. plain_parts r e (p r) sent) sent

meter-IsPlain :
    (r : Option (Resource (Unit {0})))
    → IsPlain meter_message meter_entry_of (λ e. e.meter_id) (λ m. m.meter_id) r
unfolding meter_message meter_entry_of
meter-IsPlain none = record { numbered = λ e. refl; aliased = λ m. refl; same = λ e. refl }
meter-IsPlain (some r) = record { numbered = λ e. refl; aliased = λ m. refl; same = λ e. refl }

counter-IsPlain :
    (r : Option (Resource (Unit {0})))
    → IsPlain counter_message counter_entry_of (λ e. e.counter_id) (λ m. m.counter_id) r
unfolding counter_message counter_entry_of
counter-IsPlain none = record { numbered = λ e. refl; aliased = λ m. refl; same = λ e. refl }
counter-IsPlain (some r) = record { numbered = λ e. refl; aliased = λ m. refl; same = λ e. refl }

-- A configuration of zeros is not sent, and reads as zeros.
config_again : (c : DigestConfig) → some_config (or_no_config (some_config c)) ≡ some_config c
unfolding some_config or_no_config is_no_config
config_again c = elim (Bool-cases (is_no_config c)) [
  | inl zeros ↦ rw zeros refl
  | inr other ↦ rw (other, other) refl
]

digest-IsPlain :
    (r : Option (Resource P4Type))
    → IsPlain digest_message digest_entry_of (λ e. e.digest_id) (λ m. m.digest_id) r
unfolding digest_message digest_entry_of
digest-IsPlain none = record { numbered = λ e. refl; aliased = λ m. refl; same = λ e. refl }
digest-IsPlain (some r) = record {
  numbered = λ e. refl;
  aliased = λ m. refl;
  same = λ e. ap (λ c. record { digest_id = r.id; config = c }) (config_again e.config);
}

pub meter_again :
    (s : Schema) (e : MeterEntry) {m : MeterMessage}
    → AreResources s.meters
    → encode_meter s e ≡ ok m
    → (e' : MeterEntry) × (decode_meter s m ≡ ok e') × (encode_meter s e' ≡ ok m)
unfolding encode_meter decode_meter
meter_again s e h sent =
    plain_again meter_message meter_entry_of (λ e. e.meter_id) (λ m. m.meter_id) s.meters e
      meter-IsPlain h sent

pub counter_again :
    (s : Schema) (e : CounterEntry) {m : CounterMessage}
    → AreResources s.counters
    → encode_counter s e ≡ ok m
    → (e' : CounterEntry) × (decode_counter s m ≡ ok e') × (encode_counter s e' ≡ ok m)
unfolding encode_counter decode_counter
counter_again s e h sent =
    plain_again counter_message counter_entry_of (λ e. e.counter_id) (λ m. m.counter_id) s.counters
      e counter-IsPlain h sent

pub digest_again :
    (s : Schema) (e : DigestEntry) {m : DigestMessage}
    → AreResources s.digests
    → encode_digest s e ≡ ok m
    → (e' : DigestEntry) × (decode_digest s m ≡ ok e') × (encode_digest s e' ≡ ok m)
unfolding encode_digest decode_digest
digest_again s e h sent =
    plain_again digest_message digest_entry_of (λ e. e.digest_id) (λ m. m.digest_id) s.digests e
      digest-IsPlain h sent
