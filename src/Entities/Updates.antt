-- ===== src/Entities/Updates.antt =====
-- finsy/p4entity.py: the types of updates, and the encoding of nested lists of updates.
pub mod Outcome
mod Examples
use finsy.Prelude.{Bool, true, false, List, [], ◌∷◌, ◌++◌, if◌then◌else◌}
use finsy.Prelude.{Result, ok, err, value_error, type_error, ◌>>=◌}
use finsy.Entities.Resources.{Schema}
use finsy.Entities.Dispatch.{
  P4Entity, register_entry, meter_entry, counter_entry, EntityMessage, encode,
}

-- P4UpdateType
pub data UpdateType : Type 0 where
  unspecified insert modify delete : UpdateType

-- The subclasses of _P4ModifyOnly; the others are those of _P4Writable.
unfoldable pub is_modify_only : P4Entity → Bool
is_modify_only (register_entry e) = true
is_modify_only (meter_entry e) = true
is_modify_only (counter_entry e) = true
is_modify_only _ = false

-- An entity with its `_update_type`
pub record Pending : Type 0 where
  pub entity : P4Entity
  pub update_type : UpdateType

-- A type is given once.
unfoldable pub specified : UpdateType → P4Entity → UpdateType → Result Pending
specified t entity unspecified = ok (record { entity = entity; update_type = t })
specified t entity _ = err value_error

-- `+` and `-`, which an entity that is only modified does not have
unfoldable pub specify : UpdateType → Pending → Result Pending
unfolding specified
specify t p = if is_modify_only p.entity then err type_error else specified t p.entity p.update_type

-- `~`
unfoldable pub invert : Pending → Result Pending
unfolding specified
invert p = if is_modify_only p.entity then ok p else specified modify p.entity p.update_type

pub record Update : Type 0 where
  pub update_type : UpdateType
  pub message : EntityMessage

unfoldable pub with_type : Schema → P4Entity → UpdateType → Result Update
with_type s entity unspecified = err value_error
with_type s entity t = do m ← encode s entity; ok (record { update_type = t; message = m })

unfoldable pub encode_update : Schema → Pending → Result Update
unfolding with_type
encode_update s p =
    if is_modify_only p.entity
    then with_type s p.entity modify
    else with_type s p.entity p.update_type

-- What a list of updates holds; a request to the stream is one of `R`.
pub data UpdateItem (R : Type 0) : Type 0 where
  update : Update → UpdateItem R
  request : R → UpdateItem R
  pending : Pending → UpdateItem R

pub data Outgoing (R : Type 0) : Type 0 where
  sent_update : Update → Outgoing R
  sent_request : R → Outgoing R

unfoldable pub encode_item : {R : Type 0} → Schema → UpdateItem R → Result (Outgoing R)
encode_item s (update u) = ok (sent_update u)
encode_item s (request r) = ok (sent_request r)
encode_item s (pending p) = do u ← encode_update s p; ok (sent_update u)

-- P4UpdateList
mutual
  pub data UpdateList (R : Type 0) : Type 0 where
    leaf : UpdateItem R → UpdateList R
    nested : UpdateLists R → UpdateList R

  pub data UpdateLists (R : Type 0) : Type 0 where
    done : UpdateLists R
    next : UpdateList R → UpdateLists R → UpdateLists R

unfoldable pub flatten : {R : Type 0} → UpdateLists R → List (UpdateItem R)
flatten done = []
flatten (next (leaf item) values) = item ∷ flatten values
flatten (next (nested inner) values) = flatten inner ++ flatten values

unfoldable pub encode_items :
    {R : Type 0} → Schema → List (UpdateItem R) → Result (List (Outgoing R))
encode_items s [] = ok []
encode_items s (item ∷ items) =
    let rest = encode_items s items in
    (do first ← encode_item s item; others ← rest; ok (first ∷ others))

unfoldable pub encode_updates : {R : Type 0} → Schema → UpdateList R → Result (List (Outgoing R))
encode_updates s (leaf item) = encode_items s (item ∷ [])
encode_updates s (nested values) = encode_items s (flatten values)
