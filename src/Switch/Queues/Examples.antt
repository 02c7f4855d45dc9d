-- ===== src/Switch/Queues/Examples.antt =====
-- Packets, digest lists and timeouts on their way to readers.
use finsy.Switch.Queues.Bounds.{stream_packet-IsBounded, IsBounded}
use finsy.Prelude.{
  All, inr, arith, ◌≡◌, refl, none, some, [], ◌∷◌, ◌++◌, replicate, Bytes, codes, ok, err,
  value_error, overflow_error, ◌>>=◌, List,
}
use finsy.Bytes.{to_bytes, be_bytes}
use finsy.Switch.Queues.{
  Queues, is_full, offer, open_packets, close_packets, passes, offer_packet, stream_packet,
  open_digests, stream_digest, close_digests, open_timeouts, close_timeouts, stream_timeout,
}

abbrev nothing : Queues
nothing = record { packets = []; digests = []; timeouts = none }

-- A payload of Ethernet type 0x0806
abbrev arp : Bytes
arp = replicate 12 0 ++ (0x08 ∷ 0x06 ∷ [])

abbrev reading : List Bytes → Queues
reading items = record nothing {
  packets =
      record {
        reader = 7;
        eth_types = some ((0x08 ∷ 0x06 ∷ []) ∷ []);
        queue = record { maxsize = 1; items = items };
      }
      ∷ [];
}

opened :
    (open_packets 7 1 (some (0x0806 ∷ [])) nothing ≡ ok (reading []))
    × (open_packets 7 1 (some (0x10000 ∷ [])) nothing ≡ err overflow_error)
unfolding open_packets to_bytes be_bytes
opened = (refl, refl)

-- The second packet finds the queue full, and a packet of another type is not taken.
received :
    (stream_packet arp (stream_packet arp (reading [])) ≡ reading (arp ∷ []))
    × (stream_packet [] (reading []) ≡ reading [])
    × (close_packets 7 (reading []) ≡ nothing)
unfolding stream_packet offer_packet passes offer is_full close_packets
received = (refl, refl, refl)

digests :
    (open_digests (codes "d") 0 nothing >>= λ s.
    ok (close_digests (codes "d") (stream_digest (codes "d") 5 s)))
    ≡ ok nothing
unfolding open_digests close_digests stream_digest offer is_full
digests = refl

timeouts : (open_timeouts 1 nothing >>= λ s. open_timeouts 1 (stream_timeout 5 s)) ≡ err value_error
unfolding open_timeouts stream_timeout
timeouts = refl

closed : close_timeouts nothing ≡ nothing
unfolding close_timeouts
closed = refl

stream_packet-IsBounded_example :
    All (λ r. IsBounded r.queue) (stream_packet arp (reading (arp ∷ []))).packets
stream_packet-IsBounded_example =
    stream_packet-IsBounded arp (reading (arp ∷ [])) (inr (omega arith), tt)
