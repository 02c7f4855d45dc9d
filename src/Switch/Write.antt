-- ===== src/Switch/Write.antt =====
-- finsy/switch.py: write, insert, modify, delete and delete_many.
-- A message is what `encode_updates` returns. The client is a list of what it was sent; what it
-- answers to a write request is a parameter, an error or none.
pub mod Outcomes
pub mod Deletions
mod Examples
use finsy.Prelude.{
  ℕ, Bool, true, false, ◌&&◌, ◌||◌, not, Option, none, some, List, [], ◌∷◌, ◌++◌, map, ◌==◌,
  if◌then◌else◌,
}
use finsy.Client.{RpcStatus, is_not_found_only}

-- p4r.Entity: table entries are told from the others, which have a kind each.
pub data Entity : Type 0 where
  table_entry : (table_id entry : ℕ) → Entity
  other_entity : (kind entry : ℕ) → Entity

pub data UpdateType : Type 0 where
  insert modify delete : UpdateType

pub record Update : Type 0 where
  pub type : UpdateType
  pub entity : Entity

pub data Message : Type 0 where
  stream : ℕ → Message
  update : Update → Message

-- What the client was sent
pub data Sent : Type 0 where
  stream_message : ℕ → Sent
  write_request : List Update → Sent

pub data Outcome : Type 0 where
  returns : Outcome
  raises : RpcStatus Update → Outcome
  -- the AssertionError of the last line
  assertion_fails : Outcome

-- The `except` of _write_request
handle : RpcStatus Update → Bool → Bool → Outcome
handle ex strict warn_only =
    if (strict || not (is_not_found_only ex)) && not warn_only
    then raises ex
    else if (not strict && is_not_found_only ex) || warn_only
    then returns
    else assertion_fails

unfoldable pub write_request_outcome : Option (RpcStatus Update) → Bool → Bool → Outcome
unfolding handle
write_request_outcome none strict warn_only = returns
write_request_outcome (some ex) strict warn_only = handle ex strict warn_only

abbrev pub as_update : UpdateType → Entity → Update
as_update type entity = record { type = type; entity = entity }

abbrev pub as_delete : Entity → Update
as_delete = as_update UpdateType.delete

module _ (answer : List Update → Option (RpcStatus Update)) where
  -- _write_request
  unfoldable pub write_updates : List Update → Bool → Bool → Outcome × List Sent
  write_updates updates strict warn_only =
      (write_request_outcome (answer updates) strict warn_only, write_request updates ∷ [])

  if_any : List Update → Bool → Bool → Outcome × List Sent
  if_any [] strict warn_only = (returns, [])
  if_any (u ∷ us) strict warn_only = write_updates (u ∷ us) strict warn_only

  -- `for msg in msgs`: stream messages are sent at once, and updates are collected.
  write_from : List Message → List Update → Bool → Bool → Outcome × List Sent
  unfolding if_any
  write_from [] updates strict warn_only = if_any updates strict warn_only
  write_from (stream m ∷ ms) updates strict warn_only =
      let rest = write_from ms updates strict warn_only in (rest.0, stream_message m ∷ rest.1)
  write_from (update u ∷ ms) updates strict warn_only =
      write_from ms (updates ++ (u ∷ [])) strict warn_only

  unfoldable pub write : List Message → Bool → Bool → Outcome × List Sent
  unfolding write_from
  write msgs strict warn_only = write_from msgs [] strict warn_only

  -- insert (with `strict`), modify and delete: no request for an empty list
  unfoldable pub write_entities : UpdateType → List Entity → Bool → Bool → Outcome × List Sent
  write_entities type [] strict warn_only = (returns, [])
  write_entities type (e ∷ es) strict warn_only =
      write_updates (map (as_update type) (e ∷ es)) strict warn_only

-- A table of P4Info
pub record Table : Type 0 where
  pub id : ℕ
  pub is_const : Bool

to_skip : List Table → List ℕ
to_skip [] = []
to_skip (t ∷ ts) = if t.is_const then t.id ∷ to_skip ts else to_skip ts

contains : ℕ → List ℕ → Bool
contains i [] = false
contains i (j ∷ js) = j == i || contains i js

-- A table entry of a table that is not skipped
is_kept : List ℕ → Entity → Bool
unfolding contains
is_kept skip (table_entry table entry) = not (contains table skip)
is_kept skip (other_entity kind entry) = false

filter : (Entity → Bool) → List Entity → List Entity
filter p [] = []
filter p (e ∷ es) = if p e then e ∷ filter p es else filter p es

by_skip : List ℕ → List Entity → List Entity
unfolding filter is_kept
by_skip [] es = es
by_skip (i ∷ skip) es = filter (is_kept (i ∷ skip)) es

-- One reply of the read that delete_many does. With const tables `delete` is given a generator, which
-- is true even if it brings nothing.
unfoldable pub delete_reply :
    (List Update → Option (RpcStatus Update)) → List ℕ → List Entity → Outcome × List Sent
unfolding by_skip
delete_reply answer skip [] = (returns, [])
delete_reply answer [] (e ∷ es) = write_entities answer UpdateType.delete (e ∷ es) true false
delete_reply answer (i ∷ skip) (e ∷ es) =
    write_updates answer (map as_delete (by_skip (i ∷ skip) (e ∷ es))) true false

-- `async for reply in …`; an exception ends the loop.
unless_raised : Outcome × List Sent → Outcome × List Sent → Outcome × List Sent
unless_raised (returns, sent) rest = (rest.0, sent ++ rest.1)
unless_raised (o, sent) rest = (o, sent)

unfoldable pub delete_replies :
    (List Update → Option (RpcStatus Update)) → List ℕ → List (List Entity) → Outcome × List Sent
unfolding unless_raised
delete_replies answer skip [] = (returns, [])
delete_replies answer skip (reply ∷ replies) =
    let rest = delete_replies answer skip replies in
    unless_raised (delete_reply answer skip reply) rest

unfoldable pub delete_many :
    (List Update → Option (RpcStatus Update))
    → List Table
    → List (List Entity)
    → Outcome × List Sent
unfolding to_skip
delete_many answer tables replies = delete_replies answer (to_skip tables) replies
