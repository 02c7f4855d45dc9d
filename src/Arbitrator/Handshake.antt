-- ===== src/Arbitrator/Handshake.antt =====
-- The handshake: its loop ends.
use finsy.Prelude.{ℕ, zero, suc, ◌≤◌, ◌<◌, ◌≡◌, ◌≢◌, inl, inr, refl, ap, ◌∙◌, sym, arith, Bool}
use finsy.Prelude.{List, [], ◌∷◌, Bool-cases, length, Option, none, some}
use finsy.Arbitrator.{
  Session, Reply, Event, arbitration, other, election_id_used, client_error, Outcome, returns,
  raises, fails, waits, stuck, M, send, receive, receive_from, after_receive, request, attempts,
  settle, settle_all, is_not_found, finish, bid, handshake, ◌>>=◌, listen, follow,
}

-- A bind that returns, taken apart; and one that does not run out of fuel.
pub >>=-returns :
    {A B : Type 0} (m : M A) (f : A → M B) (s : Session) (b : B) (t : Session)
    → (m >>= f) s ≡ (returns b, t)
    → (a : A) × (s' : Session) × (m s ≡ (returns a, s')) × (f a s' ≡ (returns b, t))
>>=-returns {A} {B} m f s b t h = by_outcome (m s).0 refl
  where
    by_outcome :
        (o : Outcome A)
        → (m s).0 ≡ o
        → (a : A) × (s' : Session) × (m s ≡ (returns a, s')) × (f a s' ≡ (returns b, t))
    by_outcome (returns a) e = (a, (m s).1, ground arith, ground arith)
    by_outcome (raises x) e = ground arith
    by_outcome fails e = ground arith
    by_outcome waits e = ground arith
    by_outcome stuck e = ground arith

>>=-ne-stuck :
    {A B : Type 0} (m : M A) (f : A → M B) (s : Session)
    → (m s).0 ≢ stuck
    → ((a : A) → (m s).0 ≡ returns a → (f a (m s).1).0 ≢ stuck)
    → ((m >>= f) s).0 ≢ stuck
>>=-ne-stuck {A} {B} m f s h k e = by_outcome (m s).0 refl
  where
    by_outcome : (o : Outcome A) → (m s).0 ≡ o → ⊥
    by_outcome (returns a) p = k a p (ground arith)
    by_outcome (raises x) p = ground arith
    by_outcome fails p = ground arith
    by_outcome waits p = ground arith
    by_outcome stuck p = h p

receive_from-length :
    (es : List Event) (o : Option Reply)
    → (receive_from es).0 ≡ returns o
    → length (receive_from es).1 < length es
unfolding receive_from
receive_from-length [] o h = cc
receive_from-length (arbitration r ∷ es) o h = omega arith
receive_from-length (other ∷ es) o h = omega (arith, receive_from-length es o h)
receive_from-length (election_id_used ∷ es) o h = omega arith
receive_from-length (client_error ∷ es) o h = cc

receive_from-ne-stuck : (es : List Event) → (receive_from es).0 ≢ stuck
unfolding receive_from
receive_from-ne-stuck [] h = cc
receive_from-ne-stuck (arbitration r ∷ es) h = cc
receive_from-ne-stuck (other ∷ es) h = receive_from-ne-stuck es h
receive_from-ne-stuck (election_id_used ∷ es) h = cc
receive_from-ne-stuck (client_error ∷ es) h = cc

send-ne-stuck : (s : Session) → (send s).0 ≢ stuck
unfolding send
send-ne-stuck s h = ground arith

send-events : (s : Session) → (send s).1.events ≡ s.events
unfolding send
send-events s = ground arith

receive-ne-stuck : (s : Session) → (receive s).0 ≢ stuck
unfolding receive
receive-ne-stuck s h = receive_from-ne-stuck s.events h

after_receive-ne-stuck :
    (again : M Reply) (o : Option Reply) (s : Session)
    → ((t : Session) → (again t).0 ≢ stuck)
    → (after_receive again o s).0 ≢ stuck
unfolding after_receive
after_receive-ne-stuck again none s h e = h _ e
after_receive-ne-stuck again (some reply) s h e = cc

request-ne-stuck : (n : ℕ) (s : Session) → (request n s).0 ≢ stuck
unfolding request
request-ne-stuck zero s h = cc
request-ne-stuck (suc n) s h =
    let again = request-ne-stuck n in
    >>=-ne-stuck send (λ _. listen (request n)) s (send-ne-stuck s)
      (λ _ _.
        >>=-ne-stuck receive (after_receive (request n)) (send s).1 (receive-ne-stuck (send s).1)
          (λ o _. after_receive-ne-stuck (request n) o (receive (send s).1).1 again))
      h

send-inv : (s t : Session) → send s ≡ (returns tt, t) → t.events ≡ s.events
send-inv s t h = ap (λ r. r.1.events) (sym h) ∙ send-events s

receive-inv :
    (s t : Session) (o : Option Reply)
    → receive s ≡ (returns o, t)
    → length t.events < length s.events
unfolding receive
receive-inv s t o h = ground (arith, receive_from-length s.events o)

after_receive-inv :
    (again : M Reply) (o : Option Reply) (s t : Session) (reply : Reply)
    → ((s' t' : Session) → again s' ≡ (returns reply, t') → length t'.events < length s'.events)
    → after_receive again o s ≡ (returns reply, t)
    → length t.events ≤ length s.events
unfolding after_receive
after_receive-inv again none s t reply ih h = omega (arith, ih _ t h)
after_receive-inv again (some r) s t reply ih h = ground arith

-- A request that returns has taken an event.
request-shorter :
    (n : ℕ) (s : Session) (reply : Reply) (t : Session)
    → request n s ≡ (returns reply, t)
    → length t.events < length s.events
unfolding request
request-shorter zero s reply t h = ground arith
request-shorter (suc n) s reply t h =
    let again = λ (s' t' : Session). request-shorter n s' reply t' in
    let (_, s₁, e₁, h₁) = >>=-returns send (λ _. listen (request n)) s reply t h in
    let (o, s₂, e₂, h₂) = >>=-returns receive (after_receive (request n)) s₁ reply t h₁ in
    let same = ap (λ es. length es) (send-inv s s₁ e₁) in
    omega (arith, receive-inv s₁ s₂ o e₂, after_receive-inv (request n) o s₂ t reply again h₂)

settle-ne-stuck :
    (fuel : ℕ) (reply : Reply) (s : Session)
    → length s.events < fuel
    → (settle fuel reply s).0 ≢ stuck
unfolding settle
settle-ne-stuck zero reply s h e = absurd (omega arith)
settle-ne-stuck (suc fuel) reply s h e =
    let next = settle-ne-stuck fuel in
    elim (Bool-cases (is_not_found reply.code)) [
      | inr final ↦ ground arith
      | inl again ↦
          let s₁ : Session = record s { arb = follow s.arb reply } in
          >>=-ne-stuck (request attempts) (settle fuel) s₁ (request-ne-stuck attempts s₁)
            (λ r p. next r (request attempts s₁).1 (
              omega (
                arith,
                request-shorter attempts s₁ r (request attempts s₁).1
                    (ap (λ o. (o, (request attempts s₁).1)) p),
              )))
            (rw (again, settle) at e)
    ]

finish-ne-stuck : (reply : Reply) (s : Session) → (finish reply s).0 ≢ stuck
unfolding finish
finish-ne-stuck reply s h = ground arith

bid-ne-stuck : (s : Session) → (bid s).0 ≢ stuck
unfolding bid settle_all
bid-ne-stuck s =
    let s₁ : Session = (request attempts s).1 in
    >>=-ne-stuck (request attempts) (λ first. settle_all first >>= finish) s
      (request-ne-stuck attempts s)
      λ first _.
        >>=-ne-stuck (settle_all first) finish s₁
          (settle-ne-stuck (suc (length s₁.events)) first s₁ (omega arith))
          λ last _. finish-ne-stuck last (settle_all first s₁).1

-- Whatever the switch sends, the handshake returns, raises, or waits for another message: its loop
-- takes a message each time.
pub handshake-ne-stuck : (conflict : Bool) (s : Session) → (handshake conflict s).0 ≢ stuck
unfolding handshake
handshake-ne-stuck conflict s e = elim (Bool-cases s.arb.is_primary) [
  | inl primary ↦ ground arith
  | inr backup ↦ bid-ne-stuck _ (rw (backup, handshake) at e)
]
