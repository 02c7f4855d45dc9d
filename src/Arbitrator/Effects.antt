-- ===== src/Arbitrator/Effects.antt =====
-- The change of role that a later arbitration message makes, and what is announced of it.
use finsy.Prelude.{sym, ap, ◌∙◌}
use finsy.Prelude.{◌≡◌, ◌⊎◌, refl, arith, Bool, true, false}
use finsy.Prelude.{[], ◌∷◌, ◌++◌}
use finsy.Prelude.Int.{ℤ, pos, negsuc, leb_ℤ, eqb_ℤ, ltb_ℤ}
use finsy.Prelude.{if◌then◌else◌, inl, inr, subst, Bool-cases, not, ◌&&◌}
use finsy.Grpc.{StatusCode}
use finsy.Arbitrator.{
  Arbitrator, Session, Reply, returns, Notice, no_notice, become_primary, become_backup, update,
  send, request_primary, effective_code, raise_primary_id, by_status, is_ok,
}
use finsy.Arbitrator.Update.{raise_primary_id_keeps, by_status-primary_id}

-- A backup that is told OK for its own ID, while a higher one is known, is called to bid.
abbrev pub IsCall : Arbitrator → Reply → Type 0
IsCall a msg =
    (msg.code ≡ StatusCode.ok)
    × (a.is_primary ≡ false)
    × (a.election_id ≡ pos msg.election_id)
    × (leb_ℤ a.primary_id (pos msg.election_id) ≡ false)

-- The election ID and the messages sent are as before.
abbrev pub IsKept : Session → Session → Type 0
IsKept s s' = (s'.arb.election_id ≡ s.arb.election_id) × (s'.sent ≡ s.sent)

-- What an update by a message that counts as one of the code `c` does between two states, and what it
-- announces
abbrev pub Effect : StatusCode → Notice → Session → Session → Type 0
Effect StatusCode.ok what s s' =
    (s'.arb.is_primary ≡ true)
    × IsKept s s'
    × (what ≡ (if s.arb.is_primary then no_notice else become_primary))
Effect StatusCode.already_exists what s s' =
    (s'.arb.is_primary ≡ false)
    × IsKept s s'
    × (what ≡ (if s.arb.is_primary then become_backup else no_notice))
Effect StatusCode.not_found what s s' =
    (s'.arb.is_primary ≡ false)
    × (s'.arb.election_id ≡ s'.arb.primary_id)
    × (s'.sent ≡ s.sent ++ (s'.arb.primary_id ∷ []))
    × (what ≡ no_notice)
Effect _ what s s' = ⊥

-- A call to bid counts as NOT_FOUND, and every other message as one of its own code.
abbrev pub IsEffect : Reply → Notice → Session → Session → Type 0
IsEffect msg what s s' =
    (IsCall s.arb msg × Effect StatusCode.not_found what s s')
    ⊎ ((¬ IsCall s.arb msg) × Effect msg.code what s s')

by_status-Effect :
    (c : StatusCode) (b : Bool) (s : Session) (what : Notice) (s' : Session)
    → s.arb.is_primary ≡ b
    → by_status c b s ≡ (returns what, s')
    → Effect c what s s'
unfolding by_status request_primary send
by_status-Effect StatusCode.ok true s what s' e h = ground arith
by_status-Effect StatusCode.ok false s what s' e h = ground arith
by_status-Effect StatusCode.already_exists true s what s' e h = ground arith
by_status-Effect StatusCode.already_exists false s what s' e h = ground arith
by_status-Effect StatusCode.not_found b s what s' e h = ground arith
by_status-Effect _ b s what s' e h = cc

eqb_ℤ-eq : (a b : ℤ) → eqb_ℤ a b ≡ true → a ≡ b
eqb_ℤ-eq (pos m) (pos n) h = ground arith
eqb_ℤ-eq (pos m) (negsuc n) h = ground arith
eqb_ℤ-eq (negsuc m) (pos n) h = ground arith
eqb_ℤ-eq (negsuc m) (negsuc n) h = ground arith

eqb_ℤ_refl : (a : ℤ) → eqb_ℤ a a ≡ true
eqb_ℤ_refl (pos n) = ground arith
eqb_ℤ_refl (negsuc n) = ground arith

-- The tests of `effective_code`, taken apart
call_tests :
    (c : StatusCode) (b : Bool) (own id : ℤ)
    → is_ok c && (not b && eqb_ℤ id own) ≡ true
    → (c ≡ StatusCode.ok) × (b ≡ false) × (own ≡ id)
unfolding is_ok
call_tests StatusCode.ok false own id h = (refl, refl, sym (eqb_ℤ-eq id own h))
call_tests StatusCode.ok true own id h = cc
call_tests _ b own id h = cc

not_call :
    {c : StatusCode} {b : Bool} {own id : ℤ}
    → c ≡ StatusCode.ok
    → b ≡ false
    → own ≡ id
    → ¬ (is_ok c && (not b && eqb_ℤ id own) ≡ false)
unfolding is_ok
not_call {id = id} code backup same h = cc (rw (code, backup, same) at h, eqb_ℤ_refl id)

effective_code-cases :
    (a : Arbitrator) (msg : Reply)
    → (IsCall a msg × (effective_code a msg ≡ StatusCode.not_found))
      ⊎ ((¬ IsCall a msg) × (effective_code a msg ≡ msg.code))
unfolding effective_code is_ok
effective_code-cases a msg = elim (Bool-cases (leb_ℤ a.primary_id (pos msg.election_id))) [
  | inl known ↦ inr ((λ call. cc (call.3, known)), rw (known, effective_code) refl)
  | inr low ↦
      elim (Bool-cases
        (is_ok msg.code && (not a.is_primary && eqb_ℤ (pos msg.election_id) a.election_id))) [
          | inl bids ↦
              let (code, backup, own) =
                call_tests msg.code a.is_primary a.election_id (pos msg.election_id) bids in
              inl ((code, backup, own, low), rw (low, effective_code, bids) refl)
          | inr stays ↦
              inr (
                (λ call. not_call call.0 call.1 call.2 stays),
                rw (low, effective_code, stays) refl,
              )
        ]
]

Effect-raise_primary_id :
    (c : StatusCode) (msg : Reply) (s : Session) (what : Notice) (s' : Session)
    → Effect c what (record s { arb = raise_primary_id s.arb msg }) s'
    → Effect c what s s'
Effect-raise_primary_id StatusCode.ok msg s what s' h =
    ground (arith, raise_primary_id_keeps s.arb msg)
Effect-raise_primary_id StatusCode.already_exists msg s what s' h =
    ground (arith, raise_primary_id_keeps s.arb msg)
Effect-raise_primary_id StatusCode.not_found msg s what s' h = h
Effect-raise_primary_id _ msg s what s' h = absurd h

-- The greater of the primary ID that is known and the one of the message
abbrev pub raised : Arbitrator → Reply → ℤ
raised a msg =
    if ltb_ℤ a.primary_id (pos msg.election_id) then pos msg.election_id else a.primary_id

raised_lem : (a : Arbitrator) (msg : Reply) → (raise_primary_id a msg).primary_id ≡ raised a msg
unfolding raise_primary_id
raised_lem a msg = elim (Bool-cases (ltb_ℤ a.primary_id (pos msg.election_id))) [
  | inl less ↦ ground arith
  | inr other ↦ ground arith
]

-- An update that returns: after OK the client is the primary, and is told so where it was a
-- backup; after ALREADY_EXISTS it is a backup, and is told so where it was the primary; both
-- leave the election ID and the messages sent as they were. After NOT_FOUND, and where a backup
-- is told OK for its own ID while a higher one is known, it is a backup without a notice, even
-- where it was the primary, and has bid for the known primary ID. It returns after no other
-- code. In each case the primary ID is then the greater of the one known before and the one of
-- the message.
pub update-Effect :
    (msg : Reply) (s : Session) (what : Notice) (s' : Session)
    → update msg s ≡ (returns what, s')
    → IsEffect msg what s s' × (s'.arb.primary_id ≡ raised s.arb msg)
unfolding update
update-Effect msg s what s' h =
    let s₁ : Session = record s { arb = raise_primary_id s.arb msg } in
    let effect = Effect-raise_primary_id (effective_code s.arb msg) msg s what s' (
      by_status-Effect (effective_code s.arb msg) s.arb.is_primary s₁ what s'
        (raise_primary_id_keeps s.arb msg).0 h) in
    let known : s'.arb.primary_id ≡ raised s.arb msg =
      sym (ap (λ r. r.1.arb.primary_id) h)
      ∙ by_status-primary_id (effective_code s.arb msg) s.arb.is_primary s₁
      ∙ raised_lem s.arb msg in
    elim (effective_code-cases s.arb msg) [
      | inl (call, code) ↦ (inl (call, subst (λ c. Effect c what s s') code effect), known)
      | inr (no_call, code) ↦ (inr (no_call, subst (λ c. Effect c what s s') code effect), known)
    ]
