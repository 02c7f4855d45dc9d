-- ===== src/Arbitrator/Asked.antt =====
-- What a request to the switch that returns has sent and received.
use mathlib.Core.List.{append_assoc}
use finsy.Prelude.{ℕ, zero, suc, ◌≡◌, refl, ap, subst, ◌∙◌, sym, arith}
use finsy.Prelude.{List, [], ◌∷◌, ◌++◌, Option, none, some}
use finsy.Prelude.Int.{ℤ}
use finsy.Arbitrator.{
  Session, Reply, Event, Outcome, arbitration, other, election_id_used, client_error, returns, send,
  receive, receive_from, after_receive, request, listen, lower,
}
use finsy.Arbitrator.Handshake.{>>=-returns}

-- The reply is the last of the events that were taken from `es`, where `rest` is left.
abbrev pub IsTaken : Reply → List Event → List Event → Type 0
IsTaken reply es rest = (before : List Event) × (es ≡ before ++ (arbitration reply ∷ rest))

abbrev pub last_of : ℤ → List ℤ → ℤ
last_of first [] = first
last_of first (next ∷ more) = last_of next more

-- Between two sessions the IDs from `first` on were sent, and the last one is the election ID.
abbrev pub HasBids : ℤ → Session → Session → Type 0
HasBids first s t =
    (more : List ℤ) × (t.sent ≡ s.sent ++ (first ∷ more)) × (last_of first more ≡ t.arb.election_id)

last_of-append :
    (first next : ℤ) (more others : List ℤ)
    → last_of first (more ++ (next ∷ others)) ≡ last_of next others
last_of-append first next [] others = refl
last_of-append first next (m ∷ more) others = last_of-append m next more others

-- Bids after bids
pub HasBids-after :
    (first next : ℤ) (more : List ℤ) (s u t : Session)
    → u.sent ≡ s.sent ++ (first ∷ more)
    → HasBids next u t
    → HasBids first s t
HasBids-after first next more s u t sent (others, again, last) = (
  more ++ (next ∷ others),
  again ∙ ap (λ l. l ++ (next ∷ others)) sent ∙ append_assoc s.sent (first ∷ more) (next ∷ others),
  last_of-append first next more others ∙ last,
)

pub IsTaken-later :
    (before : List Event) (e : Event) (es rest left : List Event) (reply : Reply)
    → es ≡ before ++ (e ∷ rest)
    → IsTaken reply rest left
    → IsTaken reply es left
IsTaken-later before e es rest left reply here (more, there) = (
  before ++ (e ∷ more),
  here
      ∙ ap (λ l. before ++ (e ∷ l)) there
      ∙ sym (append_assoc before (e ∷ more) (arbitration reply ∷ left)),
)

receive_from_inv :
    (es : List Event) (o : Option Reply) (rest : List Event)
    → receive_from es ≡ (returns o, rest)
    → (before : List Event) × (e : Event) × (es ≡ before ++ (e ∷ rest))
      × ((reply : Reply) → o ≡ some reply → e ≡ arbitration reply)
unfolding receive_from
receive_from_inv [] o rest h = cc
receive_from_inv (arbitration r ∷ es) o rest h =
    ([], arbitration r, ground arith, λ reply is. ground arith)
receive_from_inv (other ∷ es) o rest h =
    let (before, e, same, is) = receive_from_inv es o rest h in
    (other ∷ before, e, ap (λ l. other ∷ l) same, is)
receive_from_inv (election_id_used ∷ es) o rest h =
    ([], election_id_used, ground arith, λ reply is. ground arith)
receive_from_inv (client_error ∷ es) o rest h = cc

-- What a request that returns has sent, and the reply that it returns
unfoldable pub Requested : Session → Reply → Session → Type 0
Requested s reply t = HasBids s.arb.election_id s t × IsTaken reply s.events t.events

abbrev bidden : Session → List Event → Session
bidden s rest = record s { sent = s.sent ++ (s.arb.election_id ∷ []); events = rest }

send_inv : (s t : Session) → send s ≡ (returns tt, t) → bidden s s.events ≡ t
unfolding send
send_inv s t h = ground arith

request_step :
    (n : ℕ) (s t : Session) (reply : Reply)
    → request (suc n) s ≡ (returns reply, t)
    → (o : Option Reply) × (rest : List Event) × (receive_from s.events ≡ (returns o, rest))
      × (after_receive (request n) o (bidden s rest) ≡ (returns reply, t))
unfolding request receive
request_step n s t reply h =
    let (_, s₁, e₁, h₁) = >>=-returns send (λ _. listen (request n)) s reply t h in
    let (o, s₂, e₂, h₂) =
      >>=-returns receive (after_receive (request n)) (bidden s s.events) reply t
        (subst (λ x. listen (request n) x ≡ (returns reply, t)) (sym (send_inv s s₁ e₁)) h₁) in
    let taken : receive_from s.events ≡ (returns o, (receive_from s.events).1) = ground arith in
    (
      o,
      (receive_from s.events).1,
      taken,
      subst (λ x. after_receive (request n) o x ≡ (returns reply, t)) (sym (ap (λ r. r.1) e₂)) h₂,
    )

pub returns_same :
    {A : Type 0} (P : A → Session → Type 0) {a b : A} {s t : Session}
    → ◌≡◌ {A = Outcome A × Session} (returns a, s) (returns b, t)
    → P a s
    → P b t
returns_same P {a} {b} {s} {t} h p =
    let values : a ≡ b = ground arith in
    let sessions : s ≡ t = ap (λ r. r.1) h in subst (λ x. P x t) values (subst (P a) sessions p)

answered :
    (n : ℕ) (s : Session) (o : Option Reply) (rest : List Event) (reply : Reply) (t : Session)
    → ((s' t' : Session) → request n s' ≡ (returns reply, t') → Requested s' reply t')
    → receive_from s.events ≡ (returns o, rest)
    → after_receive (request n) o (bidden s rest) ≡ (returns reply, t)
    → Requested s reply t
unfolding after_receive Requested
answered n s none rest reply t again taken h =
    let u : Session = record (bidden s rest) { arb = lower s.arb } in
    let (bids, reached) = again u t h in
    let (before, e, here, _) = receive_from_inv s.events none rest taken in
    (
      HasBids-after s.arb.election_id u.arb.election_id [] s u t refl bids,
      IsTaken-later before e s.events rest t.events reply here reached,
    )
answered n s (some r) rest reply t again taken h =
    let (before, e, here, is) = receive_from_inv s.events (some r) rest taken in
    returns_same (λ r u. Requested s r u) h
      (([], refl, refl), (before, here ∙ ap (λ e. before ++ (e ∷ rest)) (is r refl)))

pub request-Requested :
    (n : ℕ) (s : Session) (reply : Reply) (t : Session)
    → request n s ≡ (returns reply, t)
    → Requested s reply t
unfolding request
request-Requested zero s reply t h = ground arith
request-Requested (suc n) s reply t h =
    let again = λ (s' t' : Session). request-Requested n s' reply t' in
    let (o, rest, taken, h') = request_step n s t reply h in
    answered n s o rest reply t again taken h'
