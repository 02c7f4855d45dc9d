-- ===== src/Arbitrator.antt =====
-- finsy/p4arbitrator.py: the election of the primary client of a switch.
-- The stream to the switch is a list of the events that it will bring. A method is a function from
-- the arbitrator and that stream; it may also wait for an event that has not come.
pub mod Handshake
pub mod Asked
pub mod Settled
pub mod Update
pub mod Effects
pub mod Bids
mod Examples
use finsy.Prelude.{
  ℕ, zero, suc, ◌+◌, Bool, true, false, ◌&&◌, not, Option, none, some, List, [], ◌∷◌, ◌++◌,
}
use finsy.Prelude.{
  length, if◌then◌else◌, Str, Result, ok, err, Error, value_error, assertion_error, runtime_error,
}
use finsy.Prelude.Int.{ℤ, pos, negsuc, pred_ℤ, ltb_ℤ, leb_ℤ, eqb_ℤ}
use finsy.Grpc
use finsy.Grpc.{StatusCode}

-- p4r.Role: a name, and a configuration message that is only passed on.
pub record Role : Type 0 where
  pub name : Str
  pub config : ℕ

pub record Arbitrator : Type 0 where
  pub initial_election_id : ℤ
  pub election_id : ℤ
  pub role : Option Role
  pub is_primary : Bool
  pub primary_id : ℤ

abbrev pub not_assigned : ℤ
not_assigned = negsuc 0

is_empty : Str → Bool
is_empty [] = true
is_empty (c ∷ s) = false

-- _create_role
pub create_role : Str → Option ℕ → Result (Option Role)
unfolding is_empty
create_role name none = if is_empty name then ok none else err value_error
create_role name (some config) = ok (some (record { name = name; config = config }))

abbrev fresh : ℤ → Option Role → Arbitrator
fresh initial role = record {
  initial_election_id = initial;
  election_id = initial;
  role = role;
  is_primary = false;
  primary_id = not_assigned;
}

-- Arbitrator(initial_election_id, role_name, role_config)
pub create : ℤ → Str → Option ℕ → Result Arbitrator
unfolding create_role
create initial name config = elim (create_role name config) [
  | ok role ↦ ok (fresh initial role)
  | err e ↦ err e
]

pub reset : Arbitrator → Arbitrator
reset a = record a {
  election_id = a.initial_election_id;
  is_primary = false;
  primary_id = not_assigned;
}

-- A MasterArbitrationUpdate, with its status and its election ID decoded.
pub record Reply : Type 0 where
  pub code : StatusCode
  pub election_id : ℕ

-- What `receive` may bring: an arbitration, another message, the error that the election ID is in
-- use, or another error of the client.
pub data Event : Type 0 where
  arbitration : Reply → Event
  other : Event
  election_id_used : Event
  client_error : Event

-- The arbitrator, the election IDs sent so far, and the events to come.
pub record Session : Type 0 where
  pub arb : Arbitrator
  pub sent : List ℤ
  pub events : List Event

pub data Outcome {ℓ} (A : Type ℓ) : Type ℓ where
  returns : A → Outcome A
  raises : Error → Outcome A
  -- the P4ClientError of an event, which is not handled here
  fails : Outcome A
  -- no event is left: the method still waits
  waits : Outcome A
  -- no outcome of the code: the fuel of a loop ran out
  stuck : Outcome A

abbrev pub M : Type 0 → Type 0
M A = Session → Outcome A × Session

infixl 5 ◌>>=◌ ◌>>◌
abbrev pub ◌>>=◌ : {A B : Type 0} → M A → (A → M B) → M B
◌>>=◌ m f s =
    let (r, s') = m s in
    elim r [
      | returns a ↦ f a s'
      | raises e ↦ (raises e, s')
      | fails ↦ (fails, s')
      | waits ↦ (waits, s')
      | stuck ↦ (stuck, s')
    ]

abbrev pub ◌>>◌ : {B : Type 0} → M (Unit {0}) → M B → M B
m >> k = m >>= λ _. k

abbrev pub pure : {A : Type 0} → A → M A
pure a s = (returns a, s)

abbrev pub get_arb : M Arbitrator
get_arb s = (returns s.arb, s)

abbrev pub put_arb : Arbitrator → M (Unit {0})
put_arb a s = (returns tt, record s { arb = a })

-- `assert b`
abbrev pub check : Bool → Error → M (Unit {0})
check true e s = (returns tt, s)
check false e s = (raises e, s)

abbrev lower : Arbitrator → Arbitrator
lower a = record a { election_id = pred_ℤ a.election_id }

-- _send, where the client is open: the election ID must not be negative.
unfoldable pub send : M (Unit {0})
send s =
    if leb_ℤ (pos 0) s.arb.election_id
    then (returns tt, record s { sent = s.sent ++ (s.arb.election_id ∷ []) })
    else (raises assertion_error, s)

-- _receive: other messages are ignored, and `none` says that the election ID is in use.
receive_from : List Event → Outcome (Option Reply) × List Event
receive_from [] = (waits, [])
receive_from (arbitration reply ∷ es) = (returns (some reply), es)
receive_from (other ∷ es) = receive_from es
receive_from (election_id_used ∷ es) = (returns none, es)
receive_from (client_error ∷ es) = (fails, es)

unfoldable pub receive : M (Option Reply)
unfolding receive_from
receive s = ((receive_from s.events).0, record s { events = (receive_from s.events).1 })

after_receive : M Reply → Option Reply → M Reply
after_receive again none = do a ← get_arb; put_arb (lower a); again
after_receive again (some reply) = pure reply

abbrev listen : M Reply → M Reply
listen again = do response ← receive; after_receive again response

-- _arbitration_request, with `n` attempts left: an election ID that is in use is lowered by one.
unfoldable pub request : ℕ → M Reply
unfolding after_receive
request zero = λ s. (raises value_error, s)
request (suc n) = do send; listen (request n)

abbrev pub attempts : ℕ
attempts = 5

pub is_not_found : StatusCode → Bool
is_not_found StatusCode.not_found = true
is_not_found _ = false

abbrev follow : Arbitrator → Reply → Arbitrator
follow a reply = record a { election_id = pos reply.election_id }

-- `while status.code == NOT_FOUND`: bid again with the election ID of the reply.
unfoldable pub settle : ℕ → Reply → M Reply
unfolding is_not_found
settle zero reply = λ s. if is_not_found reply.code then (stuck, s) else (returns reply, s)
settle (suc fuel) reply = elim (is_not_found reply.code) [
  | false ↦ pure reply
  | true ↦ (do a ← get_arb; put_arb (follow a reply); next ← request attempts; settle fuel next)
]

-- _check_invariant
unfoldable pub invariant_holds : Arbitrator → Bool
invariant_holds a =
    if a.is_primary then eqb_ℤ a.election_id a.primary_id else ltb_ℤ a.election_id a.primary_id

pub is_final : StatusCode → Bool
is_final StatusCode.ok = true
is_final StatusCode.already_exists = true
is_final _ = false

unfoldable pub is_ok : StatusCode → Bool
is_ok StatusCode.ok = true
is_ok _ = false

-- The end of `handshake`, with the last reply.
unfoldable pub finish : Reply → M (Unit {0})
unfolding is_final is_ok invariant_holds
finish reply = do
  check (is_final reply.code) assertion_error
  a ← get_arb
  put_arb (record a { primary_id = pos reply.election_id; is_primary = is_ok reply.code })
  b ← get_arb
  check (invariant_holds b) runtime_error

-- Every round of the loop but the last takes an event at least, so the events are fuel enough.
unfoldable pub settle_all : Reply → M Reply
settle_all reply s = settle (suc (length s.events)) reply s

-- The part of `handshake` after the election ID is chosen.
unfoldable pub bid : M (Unit {0})
bid = do first ← request attempts; last ← settle_all first; finish last

unfoldable pub handshake : Bool → M (Unit {0})
handshake conflict = do
  a ← get_arb
  check (not a.is_primary) assertion_error
  put_arb (if conflict then lower a else a)
  bid

-- _request_primary
unfoldable pub request_primary : M (Unit {0})
request_primary = do a ← get_arb; put_arb (record a { election_id = a.primary_id }); send

-- What `update` asks of the switch.
pub data Notice : Type 0 where
  no_notice become_primary become_backup : Notice

abbrev with_primary : Bool → Arbitrator → Arbitrator
with_primary b a = record a { is_primary = b }

-- `match status_code`, on the state with the new primary ID.
unfoldable pub by_status : StatusCode → Bool → M Notice
by_status StatusCode.ok true = pure no_notice
by_status StatusCode.ok false = do a ← get_arb; put_arb (with_primary true a); pure become_primary
by_status StatusCode.already_exists true = do
  a ← get_arb
  put_arb (with_primary false a)
  pure become_backup
by_status StatusCode.already_exists false = pure no_notice
by_status StatusCode.not_found _ = do
  a ← get_arb
  put_arb (with_primary false a)
  request_primary
  pure no_notice
by_status _ _ = λ s. (raises value_error, s)

-- A primary ID below the known one is not taken; with OK for a backup's own ID it is a call to bid.
unfoldable pub effective_code : Arbitrator → Reply → StatusCode
unfolding is_ok
effective_code a msg =
    if leb_ℤ a.primary_id (pos msg.election_id)
    then msg.code
    else if is_ok msg.code && (not a.is_primary && eqb_ℤ (pos msg.election_id) a.election_id)
    then StatusCode.not_found
    else msg.code

unfoldable pub raise_primary_id : Arbitrator → Reply → Arbitrator
raise_primary_id a msg =
    if leb_ℤ a.primary_id (pos msg.election_id)
    then record a { primary_id = pos msg.election_id }
    else a

unfoldable pub update : Reply → M Notice
unfolding by_status
update msg = do
  a ← get_arb
  put_arb (raise_primary_id a msg)
  by_status (effective_code a msg) a.is_primary

-- The requests that carry the role and the election ID.
pub data RequestKind : Type 0 where
  read set_pipeline write other_request : RequestKind

pub record Request : Type 0 where
  pub kind : RequestKind
  pub role_name : Str
  pub election : ℕ

set_role : Option Role → Request → Request
set_role none msg = msg
set_role (some role) msg = record msg { role_name = role.name }

-- U128.encode is a ValueError below 0.
set_election : ℤ → Request → Result Request
set_election (pos n) msg = ok (record msg { election = n })
set_election (negsuc n) msg = err value_error

complete_by_kind : RequestKind → Arbitrator → Request → Result Request
unfolding set_role set_election
complete_by_kind read a msg = ok (set_role a.role msg)
complete_by_kind set_pipeline a msg = set_election a.election_id (set_role a.role msg)
complete_by_kind write a msg = set_election a.election_id (set_role a.role msg)
complete_by_kind other_request a msg = ok msg

unfoldable pub complete_request : Arbitrator → Request → Result Request
unfolding complete_by_kind
complete_request a msg = complete_by_kind msg.kind a msg
