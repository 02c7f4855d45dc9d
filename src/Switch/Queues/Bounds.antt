-- ===== src/Switch/Queues/Bounds.antt =====
-- The queues of packets keep their bounds, and take what they have room for.
use finsy.Prelude.{
  ◌≤◌, ◌≡◌, ◌⊎◌, inl, inr, arith, List, [], ◌∷◌, length, length-append, All, Bool-cases, Bytes,
}
use finsy.Switch.Queues.{
  Queue, is_full, offer, PacketReader, Queues, passes, offer_packet, offer_all, stream_packet,
}

-- A queue of a bounded size has no more items than that.
abbrev pub IsBounded : {A : Type 0} → Queue A → Type 0
IsBounded q = (q.maxsize ≡ 0) ⊎ (length q.items ≤ q.maxsize)

offer-IsBounded : {A : Type 0} (x : A) (q : Queue A) → IsBounded q → IsBounded (offer x q)
unfolding offer is_full
offer-IsBounded x q h = let more = length-append q.items (x ∷ []) in ground arith

offer_all-IsBounded :
    (payload : Bytes) (rs : List PacketReader)
    → All (λ r. IsBounded r.queue) rs
    → All (λ r. IsBounded r.queue) (offer_all payload rs)
unfolding offer_all offer_packet
offer_all-IsBounded payload [] h = tt
offer_all-IsBounded payload (r ∷ rs) (h, hs) =
    let rest = offer_all-IsBounded payload rs hs in
    let offered = offer-IsBounded payload r.queue h in
    elim (Bool-cases (passes r.eth_types payload)) [
      | inl e ↦ (rw (e, offer_packet) offered, rest)
      | inr e ↦ (rw (e, offer_packet) h, rest)
    ]

-- Where every queue of packets is within its bound, a packet leaves every queue within its bound.
pub stream_packet-IsBounded :
    (payload : Bytes) (s : Queues)
    → All (λ r. IsBounded r.queue) s.packets
    → All (λ r. IsBounded r.queue) (stream_packet payload s).packets
unfolding stream_packet
stream_packet-IsBounded payload s h = offer_all-IsBounded payload s.packets h
