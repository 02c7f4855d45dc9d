-- ===== src/Arbitrator/Bids.antt =====
-- Which election IDs the handshake bids, and when it wins.
use finsy.Prelude.{ℕ, zero, suc, ◌+◌, ◌<◌, ◌≡◌, refl, ap, ◌∙◌, sym, arith, Bool, true, false}
use finsy.Prelude.{List, [], ◌∷◌, ◌++◌, replicate, value_error, Error}
use finsy.Prelude.Int.{ℤ, pos, pred_ℤ}
use mathlib.Core.List.{append_assoc}
use native.Mathlib.Nat.{add-zero}
use finsy.Grpc.{StatusCode}
use finsy.Arbitrator.{
  Arbitrator, Session, Reply, Event, arbitration, election_id_used, returns, raises, send, receive,
  request, attempts, settle, settle_all, is_not_found, finish, handshake, bid, M, ◌>>=◌,
}

-- A session of a backup whose election ID is `n`.
abbrev pub session : Arbitrator → ℕ → List ℤ → List Event → Session
session a n sent events = record {
  arb = record a { election_id = pos n; is_primary = false };
  sent = sent;
  events = events;
}

-- e + k, and so on down to e.
abbrev pub bids : ℕ → ℕ → List ℤ
bids e zero = pos e ∷ []
bids e (suc k) = pos (e + suc k) ∷ bids e k

-- `k` answers that the ID is in use, before an arbitration.
abbrev pub taken : ℕ → List Event → List Event
taken k events = replicate k election_id_used ++ events

request_first :
    (n e : ℕ) (a : Arbitrator) (sent : List ℤ) (r : Reply) (es : List Event)
    → request (suc n) (session a e sent (arbitration r ∷ es))
      ≡ (returns r, session a e (sent ++ (pos e ∷ [])) es)
unfolding request send receive
request_first n e a sent r es = ground arith

request_lower :
    (n e : ℕ) (a : Arbitrator) (sent : List ℤ) (es : List Event)
    → request (suc n) (session a (suc e) sent (election_id_used ∷ es))
      ≡ request n (session a e (sent ++ (pos (suc e) ∷ [])) es)
unfolding request send receive
request_lower n e a sent es = ground arith

request-taken :
    (n k e : ℕ) (a : Arbitrator) (sent : List ℤ) (r : Reply) (es : List Event)
    → k < n
    → request n (session a (e + k) sent (taken k (arbitration r ∷ es)))
      ≡ (returns r, session a e (sent ++ bids e k) es)
request-taken zero k e a sent r es h = absurd (omega arith)
request-taken (suc n) zero e a sent r es h = rw add-zero (request_first n e a sent r es)
request-taken (suc n) (suc k) e a sent r es h =
    let step : e + suc k ≡ suc (e + k) = omega arith in
    let rest = request-taken n k e a (sent ++ (pos (suc (e + k)) ∷ [])) r es (omega arith) in
    rw step
      (request_lower n (e + k) a sent (taken k (arbitration r ∷ es)) ∙ rest ∙ rw append_assoc refl)

-- After all attempts the error is raised, and the ID has fallen by their number.
request_exhausted :
    (n e : ℕ) (a : Arbitrator) (sent : List ℤ) (es : List Event)
    → (request n (session a (e + n) sent (taken n es))).0 ≡ raises value_error
request_exhausted zero e a sent es = unfold request in refl
request_exhausted (suc n) e a sent es =
    let step : e + suc n ≡ suc (e + n) = omega arith in
    rw step (
      ap (λ r. r.0) (request_lower n (e + n) a sent (taken n es))
      ∙ request_exhausted n e a (sent ++ (pos (suc (e + n)) ∷ [])) es)

returns-bind :
    {A B : Type 0} (m : M A) (f : A → M B) (s : Session) {a : A} {t : Session}
    → m s ≡ (returns a, t)
    → (m >>= f) s ≡ f a t
returns-bind m f s h = ground arith

raises-bind :
    {A B : Type 0} (m : M A) (f : A → M B) (s : Session) {x : Error}
    → (m s).0 ≡ raises x
    → ((m >>= f) s).0 ≡ raises x
raises-bind m f s h = ground arith

-- The state after a reply that ends the handshake.
abbrev pub settled : Arbitrator → ℕ → Bool → ℕ → Arbitrator
settled a e is_primary primary_id = record a {
  election_id = pos e;
  is_primary = is_primary;
  primary_id = pos primary_id;
}

abbrev pub reply_of : StatusCode → ℕ → Reply
reply_of code id = record { code = code; election_id = id }

settle_all-final :
    (r : Reply) (s : Session) → is_not_found r.code ≡ false → settle_all r s ≡ (returns r, s)
unfolding settle_all settle
settle_all-final r s h = rw (h, settle) refl

bid_after :
    (k e : ℕ) (a : Arbitrator) (r : Reply) (es : List Event)
    → k < attempts
    → is_not_found r.code ≡ false
    → bid (session a (e + k) [] (taken k (arbitration r ∷ es)))
      ≡ finish r (session a e (bids e k) es)
unfolding bid
bid_after k e a r es h final =
    let s : Session = session a (e + k) [] (taken k (arbitration r ∷ es)) in
    let t : Session = session a e (bids e k) es in
    returns-bind (request attempts) (λ first. settle_all first >>= finish) s
      (request-taken attempts k e a [] r es h)
    ∙ returns-bind (settle_all r) finish t (settle_all-final r t final)

finish_ok :
    (e : ℕ) (a : Arbitrator) (sent : List ℤ) (es : List Event)
    → finish (reply_of StatusCode.ok e) (session a e sent es)
      ≡ (returns tt, record { arb = settled a e true e; sent = sent; events = es })
unfolding finish
finish_ok e a sent es = ground arith

finish_already_exists :
    (e p : ℕ) (a : Arbitrator) (sent : List ℤ) (es : List Event)
    → e < p
    → finish (reply_of StatusCode.already_exists p) (session a e sent es)
      ≡ (returns tt, record { arb = settled a e false p; sent = sent; events = es })
unfolding finish
finish_already_exists e p a sent es h = ground arith

bid_exhausted :
    (e : ℕ) (a : Arbitrator) (es : List Event)
    → (bid (session a (e + attempts) [] (taken attempts es))).0 ≡ raises value_error
unfolding bid
bid_exhausted e a es =
    let none_left = request_exhausted attempts e a [] es in
    let s : Session = session a (e + attempts) [] (taken attempts es) in
    raises-bind (request attempts) (λ r. settle_all r >>= finish) s none_left

handshake-bid :
    (n : ℕ) (a : Arbitrator) (sent : List ℤ) (es : List Event)
    → (handshake false (session a n sent es) ≡ bid (session a n sent es))
      × (handshake true (session a (suc n) sent es) ≡ bid (session a n sent es))
unfolding handshake
handshake-bid n a sent es = (
  refl,
  ap
      (λ z. bid (record {
        arb = record a { election_id = z; is_primary = false };
        sent = sent;
        events = es;
      }))
      lowered,
)
  where
    lowered : pred_ℤ (pos (suc n)) ≡ pos n
    lowered = ground arith

-- A backup that bids from `e + k`, where the IDs down to `e + 1` are in use, for `k` below 5, sends
-- the IDs from `e + k` down to `e`. With OK for `e` it is the primary, and with an ID above `e` of
-- another primary a backup. Where five IDs are in use it raises ValueError. A handshake after a
-- conflict starts at one less.
pub handshake_outcomes :
    (k e p : ℕ) (a : Arbitrator) (es : List Event)
    → k < attempts
    → e < p
    → (handshake false
          (session a (e + k) [] (taken k (arbitration (reply_of StatusCode.ok e) ∷ es)))
        ≡ (returns tt, record { arb = settled a e true e; sent = bids e k; events = es }))
      × (handshake false (
            session a
              (e + k)
              []
              (taken k (arbitration (reply_of StatusCode.already_exists p) ∷ es)))
          ≡ (returns tt, record { arb = settled a e false p; sent = bids e k; events = es }))
      × ((handshake false (session a (e + attempts) [] (taken attempts es))).0 ≡ raises value_error)
      × (handshake true (session a (suc (e + k)) [] es) ≡ handshake false (session a (e + k) [] es))
handshake_outcomes k e p a es h above = (
  (handshake-bid (e + k) a [] _).0
      ∙ bid_after k e a (reply_of StatusCode.ok e) es h (unfold is_not_found in refl)
      ∙ finish_ok e a (bids e k) es,
  (handshake-bid (e + k) a [] _).0
      ∙ bid_after k e a (reply_of StatusCode.already_exists p) es h (unfold is_not_found in refl)
      ∙ finish_already_exists e p a (bids e k) es above,
  ap (λ r. r.0) (handshake-bid (e + attempts) a [] _).0 ∙ bid_exhausted e a es,
  (handshake-bid (e + k) a [] es).1 ∙ sym (handshake-bid (e + k) a [] es).0,
)
