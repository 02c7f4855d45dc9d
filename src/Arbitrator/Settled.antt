-- ===== src/Arbitrator/Settled.antt =====
-- What a handshake that returns has sent and received, and the state that it leaves.
use finsy.Prelude.{
  ◌⊎◌, ℕ, zero, suc, ◌≡◌, inl, inr, refl, subst, ◌∙◌, sym, arith, Bool, true, false, if◌then◌else◌,
}
use finsy.Prelude.{Bool-cases}
use finsy.Prelude.Int.{ℤ, pos, pred_ℤ, ltb_ℤ}
use finsy.Grpc.{StatusCode}
use finsy.Arbitrator.{
  Arbitrator, Session, Reply, arbitration, returns, request, attempts, settle, settle_all,
  is_not_found, is_final, is_ok, invariant_holds, finish, bid, handshake, ◌>>=◌, follow,
}
use finsy.Arbitrator.Handshake.{>>=-returns}
use finsy.Arbitrator.Asked.{
  HasBids, IsTaken, HasBids-after, IsTaken-later, returns_same, Requested, request-Requested,
}

-- The client is the primary after OK for its own ID, and a backup after ALREADY_EXISTS for a higher one.
abbrev pub IsRole : Reply → Arbitrator → Type 0
IsRole last a =
    (a.primary_id ≡ pos last.election_id)
    × (((last.code ≡ StatusCode.ok)
          × (a.is_primary ≡ true)
          × (a.election_id ≡ pos last.election_id))
        ⊎ ((last.code ≡ StatusCode.already_exists)
            × (a.is_primary ≡ false)
            × (ltb_ℤ a.election_id (pos last.election_id) ≡ true)))

-- What has been sent and received from `s` on, where the last reply is `reply`
Answered : ℤ → Session → Reply → Session → Type 0
Answered first s reply t = HasBids first s t × IsTaken reply s.events t.events

Answered-Requested :
    (first : ℤ) (s₀ : Session) (reply : Reply) (s u : Session) (next : Reply) (t : Session)
    → u.sent ≡ s.sent
    → u.events ≡ s.events
    → Answered first s₀ reply s
    → Requested u next t
    → Answered first s₀ next t
unfolding Answered Requested
Answered-Requested first s₀ reply s u next t sent events ((more, was, _), (before, here))
      (bids, reached) =
    (
      HasBids-after first u.arb.election_id more s₀ u t (sent ∙ was) bids,
      IsTaken-later before (arbitration reply) s₀.events s.events t.events next here
          (subst (λ es. IsTaken next es t.events) events reached),
    )

settle-Answered :
    (fuel : ℕ) (first : ℤ) (s₀ : Session) (reply : Reply) (s : Session) (last : Reply) (t : Session)
    → Answered first s₀ reply s
    → settle fuel reply s ≡ (returns last, t)
    → Answered first s₀ last t
unfolding settle
settle-Answered zero first s₀ reply s last t so_far h =
    elim (Bool-cases (is_not_found reply.code)) [
      | inl again ↦ cc (rw (again, settle) at h)
      | inr final ↦ returns_same (Answered first s₀) (rw (final, settle) at h) so_far
    ]
settle-Answered (suc fuel) first s₀ reply s last t so_far h =
    let rest = settle-Answered fuel first s₀ in
    elim (Bool-cases (is_not_found reply.code)) [
      | inr final ↦ returns_same (Answered first s₀) (rw (final, settle) at h) so_far
      | inl again ↦
          let s₁ : Session = record s { arb = follow s.arb reply } in
          let (next, s₂, e, h') =
            >>=-returns (request attempts) (settle fuel) s₁ last t (rw (again, settle) at h) in
          rest next s₂ last t
            (Answered-Requested first s₀ reply s s₁ next s₂ refl refl so_far
              (request-Requested attempts s₁ next s₂ e))
            h'
    ]

finish-IsRole :
    (reply : Reply) (s t : Session)
    → finish reply s ≡ (returns tt, t)
    → (t.arb.election_id ≡ s.arb.election_id)
      × (t.sent ≡ s.sent)
      × (t.events ≡ s.events)
      × IsRole reply t.arb
unfolding finish is_final is_ok invariant_holds
finish-IsRole reply s t h = ground arith

bid-Answered :
    (s t : Session)
    → bid s ≡ (returns tt, t)
    → HasBids s.arb.election_id s t
      × ((last : Reply) × IsTaken last s.events t.events × IsRole last t.arb)
unfolding bid settle_all Requested Answered
bid-Answered s t h =
    let (first, s₁, e₁, h₁) =
      >>=-returns (request attempts) (λ r. settle_all r >>= finish) s tt t h in
    let (last, s₂, e₂, h₂) = >>=-returns (settle_all first) finish s₁ tt t h₁ in
    let ((more, sent, own), taken) =
      settle-Answered _ s.arb.election_id s first s₁ last s₂
        (request-Requested attempts s first s₁ e₁) e₂ in
    let (same, kept, left, role) = finish-IsRole last s₂ t h₂ in
    (
      (more, kept ∙ sent, own ∙ sym same),
      (last, subst (λ es. IsTaken last s.events es) (sym left) taken, role),
    )

-- A handshake that returns was begun by a backup. It has sent one election ID or more: the
-- first is the client's, or one less after a conflict, and the last is the election ID that it
-- leaves. The last event that it took from the switch is a reply with the primary ID that it
-- leaves, and either with OK and the client's own ID, where it leaves a primary, or with
-- ALREADY_EXISTS and a higher ID, where it leaves a backup.
pub handshake-IsSettled :
    (conflict : Bool) (s t : Session)
    → handshake conflict s ≡ (returns tt, t)
    → (s.arb.is_primary ≡ false)
      × HasBids (if conflict then pred_ℤ s.arb.election_id else s.arb.election_id) s t
      × ((last : Reply) × IsTaken last s.events t.events × IsRole last t.arb)
unfolding handshake
handshake-IsSettled true s t h = elim (Bool-cases s.arb.is_primary) [
  | inl primary ↦ absurd (ground arith)
  | inr backup ↦
      let (bids, answer) = bid-Answered _ t (rw (backup, handshake) at h) in (backup, bids, answer)
]
handshake-IsSettled false s t h = elim (Bool-cases s.arb.is_primary) [
  | inl primary ↦ absurd (ground arith)
  | inr backup ↦
      let (bids, answer) = bid-Answered _ t (rw (backup, handshake) at h) in (backup, bids, answer)
]
