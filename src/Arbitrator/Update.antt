-- ===== src/Arbitrator/Update.antt =====
-- What later arbitration messages do to the arbitrator.
use mathlib.Core.Path.{ap₂}
use finsy.Prelude.{sym}
use finsy.Prelude.{ℕ, ◌≡◌, ◌⊎◌, refl, ◌∙◌, arith, Bool, true, false}
use finsy.Prelude.Int.{pos, ◌≤ℤ◌}
use finsy.Grpc.{StatusCode}
use finsy.Arbitrator.{
  Arbitrator, Session, Reply, returns, Notice, update, send, request_primary, effective_code,
  raise_primary_id, by_status,
}

pub by_status-primary_id :
    (c : StatusCode) (b : Bool) (s : Session)
    → (by_status c b s).1.arb.primary_id ≡ s.arb.primary_id
unfolding by_status request_primary send
by_status-primary_id StatusCode.ok b s = ground arith
by_status-primary_id StatusCode.already_exists b s = ground arith
by_status-primary_id StatusCode.not_found b s = ground arith
by_status-primary_id _ b s = refl

raise_primary_id_max :
    (a : Arbitrator) (msg : Reply)
    → (a.primary_id ≤ℤ (raise_primary_id a msg).primary_id)
      × (pos msg.election_id ≤ℤ (raise_primary_id a msg).primary_id)
unfolding raise_primary_id
raise_primary_id_max a msg = ground arith

-- After an update the primary ID is at least the one before and the one of the message, whatever
-- the outcome.
update_primary_id :
    (msg : Reply) (s : Session)
    → (s.arb.primary_id ≤ℤ (update msg s).1.arb.primary_id)
      × (pos msg.election_id ≤ℤ (update msg s).1.arb.primary_id)
unfolding update
update_primary_id msg s =
    rw
      (by_status-primary_id (effective_code s.arb msg) s.arb.is_primary
        (record s { arb = raise_primary_id s.arb msg }))
      (raise_primary_id_max s.arb msg)

pub raise_primary_id_keeps :
    (a : Arbitrator) (msg : Reply)
    → ((raise_primary_id a msg).is_primary ≡ a.is_primary)
      × ((raise_primary_id a msg).election_id ≡ a.election_id)
unfolding raise_primary_id
raise_primary_id_keeps a msg = ground arith

-- A primary has the primary ID, and a backup has none above it.
abbrev pub IsConsistent : Arbitrator → Type 0
IsConsistent a =
    ((a.is_primary ≡ true) × (a.election_id ≡ a.primary_id))
    ⊎ ((a.is_primary ≡ false) × (a.election_id ≤ℤ a.primary_id))

-- What the protocol promises of a message to this client: OK is for the client whose ID is the
-- primary's, and the primary's ID does not fall; a backup is told of an ID that is not below its own.
abbrev pub IsProper : Arbitrator → Reply → Type 0
IsProper a msg =
    (a.primary_id ≤ℤ pos msg.election_id)
    × (msg.code ≡ StatusCode.ok → a.election_id ≡ pos msg.election_id)
    × (msg.code ≡ StatusCode.already_exists → a.election_id ≤ℤ pos msg.election_id)

ok-IsConsistent :
    (s : Session) (b : Bool) (n : ℕ) (what : Notice) {s' : Session}
    → s.arb.is_primary ≡ b
    → s.arb.primary_id ≡ pos n
    → s.arb.election_id ≡ pos n
    → by_status StatusCode.ok b s ≡ (returns what, s')
    → IsConsistent s'.arb
unfolding by_status
ok-IsConsistent s true n what e p q h = ground arith
ok-IsConsistent s false n what e p q h = ground arith

already_exists-IsConsistent :
    (s : Session) (b : Bool) (n : ℕ) (what : Notice) {s' : Session}
    → s.arb.is_primary ≡ b
    → s.arb.primary_id ≡ pos n
    → s.arb.election_id ≤ℤ pos n
    → by_status StatusCode.already_exists b s ≡ (returns what, s')
    → IsConsistent s'.arb
unfolding by_status
already_exists-IsConsistent s true n what e p q h = ground arith
already_exists-IsConsistent s false n what e p q h = ground arith

not_found-IsConsistent :
    (s : Session) (b : Bool) (n : ℕ) (what : Notice) {s' : Session}
    → s.arb.primary_id ≡ pos n
    → by_status StatusCode.not_found b s ≡ (returns what, s')
    → IsConsistent s'.arb
unfolding by_status request_primary send
not_found-IsConsistent s b n what p h = ground arith

by_status-IsConsistent :
    (c : StatusCode) (n : ℕ) (s : Session) (what : Notice) {s' : Session}
    → s.arb.primary_id ≡ pos n
    → (c ≡ StatusCode.ok → s.arb.election_id ≡ pos n)
    → (c ≡ StatusCode.already_exists → s.arb.election_id ≤ℤ pos n)
    → by_status c s.arb.is_primary s ≡ (returns what, s')
    → IsConsistent s'.arb
by_status-IsConsistent StatusCode.ok n s what p o b h = ok-IsConsistent s _ n what refl p (o refl) h
by_status-IsConsistent StatusCode.already_exists n s what p o b h =
    already_exists-IsConsistent s _ n what refl p (b refl) h
by_status-IsConsistent StatusCode.not_found n s what p o b h = not_found-IsConsistent s _ n what p h
by_status-IsConsistent _ n s what p o b h = unfold by_status in cc

raise_primary_id-proper :
    (a : Arbitrator) (msg : Reply)
    → a.primary_id ≤ℤ pos msg.election_id
    → ((raise_primary_id a msg).primary_id ≡ pos msg.election_id)
      × (effective_code a msg ≡ msg.code)
unfolding raise_primary_id effective_code
raise_primary_id-proper a msg h = ground arith

-- An update by a proper message that returns leaves a primary whose election ID is the primary ID,
-- or a backup whose election ID is not above it.
pub update-IsConsistent :
    (msg : Reply) (s : Session) (what : Notice) {s' : Session}
    → IsProper s.arb msg
    → update msg s ≡ (returns what, s')
    → IsConsistent s'.arb
unfolding update
update-IsConsistent msg s what {s'} (rises, own, above) h =
    let (id, code) = raise_primary_id-proper s.arb msg rises in
    let (was, bid) = raise_primary_id_keeps s.arb msg in
    let s₁ : Session = record s { arb = raise_primary_id s.arb msg } in
    by_status-IsConsistent msg.code msg.election_id s₁ what id (λ e. bid ∙ own e)
      (λ e. rw bid (above e)) (ap₂ (λ c b. by_status c b s₁) (sym code) was ∙ h)
