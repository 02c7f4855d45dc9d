-- ===== src/Switch/Write/Examples.antt =====
-- Requests to a switch that answers with an error, and the theorems about them.
use finsy.Prelude.{◌≡◌, ◌↔◌, ◌⊎◌, refl, true, false, none, some, [], ◌∷◌, ◌++◌, All, List, Option}
use finsy.Grpc.{StatusCode}
use finsy.Client.{RpcStatus, is_not_found_only}
use finsy.Switch.Write.{
  Entity, table_entry, other_entity, UpdateType, Update, stream, update, write_request, returns,
  raises, write_request_outcome, write_updates, write, write_entities, Table, delete_many,
  delete_replies, delete_reply,
}
use finsy.Switch.Write.Outcomes.{write_request_outcome_lem, write_lem, streams, updates, requests}
use finsy.Switch.Write.Deletions.{delete_many_safe, Concerns, IsFree}

-- An error without details counts as "not found only", so a request that is not strict hides it.
abbrev plain : RpcStatus Update
plain = record { code = StatusCode.unknown; message = []; details = [] }

hidden : write_request_outcome (some plain) false false ≡ returns
unfolding write_request_outcome is_not_found_only
hidden = refl

write_request_outcome_lem_example :
    ((write_request_outcome (some plain) true false ≡ raises plain)
      ↔ ((false ≡ false) × ((true ≡ true) ⊎ (is_not_found_only plain ≡ false))))
    × ((write_request_outcome (some plain) true false ≡ returns)
        ⊎ (write_request_outcome (some plain) true false ≡ raises plain))
    × (write_request_outcome none true false ≡ returns)
write_request_outcome_lem_example = write_request_outcome_lem plain true false

abbrev accepts : List Update → Option (RpcStatus Update)
accepts us = none

abbrev entry_update : Update
entry_update = record { type = UpdateType.insert; entity = table_entry 1 7 }

write_lem_example :
    (write accepts (update entry_update ∷ stream 5 ∷ []) true false).1
    ≡ streams (update entry_update ∷ stream 5 ∷ [])
      ++ requests (updates (update entry_update ∷ stream 5 ∷ []))
write_lem_example = write_lem accepts (update entry_update ∷ stream 5 ∷ []) true false

abbrev tables : List Table
tables = record { id = 1; is_const = true } ∷ record { id = 2; is_const = false } ∷ []

abbrev reply : List Entity
reply = table_entry 1 7 ∷ table_entry 2 8 ∷ other_entity 0 9 ∷ []

-- The multicast group of the reply stays where it is.
deleted : delete_many accepts tables (reply ∷ []) ≡ (
  returns,
  write_request (record { type = UpdateType.delete; entity = table_entry 2 8 } ∷ []) ∷ [],
)
unfolding delete_many delete_replies delete_reply write_updates write_request_outcome
deleted = refl

inserted :
    (write_entities accepts UpdateType.insert (table_entry 2 8 ∷ []) true false).1
    ≡ write_request (record { type = UpdateType.insert; entity = table_entry 2 8 } ∷ []) ∷ []
unfolding write_entities write_updates
inserted = refl

delete_many_safe_example :
    All (Concerns (IsFree tables)) (delete_many accepts tables (reply ∷ [])).1
delete_many_safe_example = delete_many_safe accepts tables (reply ∷ [])
