-- ===== src/Arbitrator/Examples.antt =====
-- Runs of the arbitrator, and its theorems at concrete sessions.
use finsy.Prelude.{◌≡◌, ◌≢◌, refl, arith, true, false, none, [], ◌∷◌, codes, ok, err}
use finsy.Prelude.{value_error}
use finsy.Prelude.Int.{pos}
use finsy.Grpc.{StatusCode}
use finsy.Arbitrator.{
  Arbitrator, Session, Reply, arbitration, other, election_id_used, returns, raises, stuck, write,
  complete_request, create, create_role, reset, not_assigned, is_not_found, is_final, handshake,
  bid, finish, request, send, receive, receive_from, after_receive, settle, settle_all, update,
  by_status, become_primary, effective_code, raise_primary_id,
}
use finsy.Arbitrator.Handshake.{handshake-ne-stuck}
use finsy.Arbitrator.Asked.{HasBids, IsTaken}
use finsy.Arbitrator.Settled.{IsRole, handshake-IsSettled}
use finsy.Arbitrator.Bids.{handshake_outcomes, session, bids, taken, settled, reply_of}
use finsy.Arbitrator.Update.{update-IsConsistent, IsConsistent}
use finsy.Arbitrator.Effects.{raised, update-Effect, IsEffect}

abbrev client : Arbitrator
client = record {
  initial_election_id = pos 10;
  election_id = pos 10;
  role = none;
  is_primary = false;
  primary_id = not_assigned;
}

created : create (pos 10) [] none ≡ ok client
unfolding create create_role
created = refl

-- A role configuration needs no name, but a name needs a configuration.
role_without_config : create (pos 10) (codes "r") none ≡ err value_error
unfolding create create_role
role_without_config = refl

was_reset : reset (settled client 8 true 8) ≡ client
unfolding reset
was_reset = refl

bidding : Session
bidding = session client 10 [] (other ∷ arbitration (reply_of StatusCode.ok 10) ∷ [])

became_primary : (handshake false bidding).1.arb ≡ settled client 10 true 10
unfolding bidding handshake bid finish request send receive receive_from after_receive settle
    settle_all is_not_found is_final
became_primary = refl

completed :
    complete_request client (record { kind = write; role_name = []; election = 0 })
    ≡ ok (record { kind = write; role_name = []; election = 10 })
unfolding complete_request
completed = refl

handshake-ne-stuck_example : (handshake false bidding).0 ≢ stuck
handshake-ne-stuck_example = handshake-ne-stuck false bidding

abbrev primary : Session
primary = record { arb = settled client 10 true 10; sent = pos 10 ∷ []; events = [] }

-- A conflict over 12; 11 is in use, and 10 is free.
abbrev conflicted : Session
conflicted = session client 12 [] (election_id_used ∷ arbitration (reply_of StatusCode.ok 10) ∷ [])

abbrev elected : Session
elected = record { arb = settled client 10 true 10; sent = pos 11 ∷ pos 10 ∷ []; events = [] }

won : handshake true conflicted ≡ (returns tt, elected)
unfolding handshake bid finish request send receive receive_from after_receive settle settle_all
    is_not_found is_final
won = refl

handshake-IsSettled_example :
    (false ≡ false)
    × HasBids (pos 11) conflicted elected
    × ((last : Reply) × IsTaken last conflicted.events [] × IsRole last elected.arb)
handshake-IsSettled_example = handshake-IsSettled true conflicted elected won

-- 12 and 11 are in use, and 10 is free.
handshake_outcomes_example :
    (handshake false (session client 12 [] (taken 2 (arbitration (reply_of StatusCode.ok 10) ∷ [])))
      ≡ (returns tt, record { arb = settled client 10 true 10; sent = bids 10 2; events = [] }))
    × (handshake false (
          session client 12 [] (taken 2 (arbitration (reply_of StatusCode.already_exists 20) ∷ [])))
        ≡ (returns tt, record { arb = settled client 10 false 20; sent = bids 10 2; events = [] }))
    × ((handshake false (session client 15 [] (taken 5 []))).0 ≡ raises value_error)
    × (handshake true (session client 13 [] []) ≡ handshake false (session client 12 [] []))
handshake_outcomes_example = handshake_outcomes 2 10 20 client [] (omega arith) (omega arith)

-- A backup is told that its own ID is the primary's.
abbrev waiting : Session
waiting = record { arb = client; sent = pos 10 ∷ []; events = [] }

promoted : update (reply_of StatusCode.ok 10) waiting ≡ (returns become_primary, primary)
unfolding update by_status effective_code raise_primary_id
promoted = refl

update-Effect_example :
    IsEffect (reply_of StatusCode.ok 10) become_primary waiting primary
    × (pos 10 ≡ raised client (reply_of StatusCode.ok 10))
update-Effect_example =
    update-Effect (reply_of StatusCode.ok 10) waiting become_primary primary promoted

update-IsConsistent_example : IsConsistent primary.arb
update-IsConsistent_example =
    update-IsConsistent (reply_of StatusCode.ok 10) waiting become_primary
      (omega arith, (λ _. refl), λ _. omega arith) promoted
