-- ===== src/Switch/Queues.antt =====
-- finsy/switch.py: the queues of packets, digest lists and idle timeouts.
-- A reader is a number. A message that no queue takes is only logged.
pub mod Bounds
mod Examples
use finsy.Prelude.{
  ℕ, suc, Bool, true, false, ◌&&◌, ◌||◌, not, Option, none, some, List, [], ◌∷◌, ◌++◌, length, take,
  drop, leb, ◌==◌,
}
use finsy.Prelude.{if◌then◌else◌, Str, Bytes, str_eq, Result, ok, err, value_error, ◌>>=◌}
use finsy.Prelude.Int.{pos}
use finsy.Bytes.{to_bytes}

-- asyncio.Queue(maxsize): a size of 0 is no bound.
pub record Queue (A : Type 0) : Type 0 where
  pub maxsize : ℕ
  pub items : List A

module _ {A : Type 0} where
  unfoldable pub is_full : Queue A → Bool
  is_full q = not (q.maxsize == 0) && leb q.maxsize (length q.items)

  -- put_nowait, where the queue is not full
  unfoldable pub offer : A → Queue A → Queue A
  unfolding is_full
  offer x q = if is_full q then q else record q { items = q.items ++ (x ∷ []) }

-- The filter of read_packets: the Ethernet types as two bytes, or none
pub record PacketReader : Type 0 where
  pub reader : ℕ
  pub eth_types : Option (List Bytes)
  pub queue : Queue Bytes

pub record Queues : Type 0 where
  pub packets : List PacketReader
  pub digests : List (Str × Queue ℕ)
  pub timeouts : Option (Queue ℕ)

eth_bytes : List ℕ → Result (List Bytes)
eth_bytes [] = ok []
eth_bytes (eth ∷ eths) = do b ← to_bytes 2 (pos eth); bs ← eth_bytes eths; ok (b ∷ bs)

filter_of : Option (List ℕ) → Result (Option (List Bytes))
unfolding eth_bytes
filter_of none = ok none
filter_of (some eths) = do bs ← eth_bytes eths; ok (some bs)

-- read_packets, up to its first `await`, and its end
unfoldable pub open_packets : ℕ → ℕ → Option (List ℕ) → Queues → Result Queues
unfolding filter_of
open_packets reader queue_size eth_types s = do
  types ← filter_of eth_types
  ok (record s {
    packets =
        s.packets
        ++ (record {
          reader = reader;
          eth_types = types;
          queue = record { maxsize = queue_size; items = [] };
        }
            ∷ []);
  })

without_reader : ℕ → List PacketReader → List PacketReader
without_reader i [] = []
without_reader i (r ∷ rs) = if r.reader == i then rs else r ∷ without_reader i rs

unfoldable pub close_packets : ℕ → Queues → Queues
unfolding without_reader
close_packets i s = record s { packets = without_reader i s.packets }

is_among : Bytes → List Bytes → Bool
is_among b [] = false
is_among b (c ∷ cs) = str_eq c b || is_among b cs

-- payload[12:14] in the filter
unfoldable pub passes : Option (List Bytes) → Bytes → Bool
unfolding is_among
passes none payload = true
passes (some types) payload = is_among (take 2 (drop 12 payload)) types

unfoldable pub offer_packet : Bytes → PacketReader → PacketReader
offer_packet payload r =
    if passes r.eth_types payload then record r { queue = offer payload r.queue } else r

offer_all : Bytes → List PacketReader → List PacketReader
offer_all payload [] = []
offer_all payload (r ∷ rs) = offer_packet payload r ∷ offer_all payload rs

-- _stream_packet_message
unfoldable pub stream_packet : Bytes → Queues → Queues
unfolding offer_all
stream_packet payload s = record s { packets = offer_all payload s.packets }

find_queue : Str → List (Str × Queue ℕ) → Bool
find_queue id [] = false
find_queue id ((d, q) ∷ ds) = str_eq d id || find_queue id ds

-- read_digests: a ValueError where the digest has a queue
unfoldable pub open_digests : Str → ℕ → Queues → Result Queues
unfolding find_queue
open_digests id queue_size s =
    if find_queue id s.digests
    then err value_error
    else ok (record s {
      digests = s.digests ++ ((id, record { maxsize = queue_size; items = [] }) ∷ []);
    })

offer_digest : Str → ℕ → List (Str × Queue ℕ) → List (Str × Queue ℕ)
offer_digest id digest [] = []
offer_digest id digest ((d, q) ∷ ds) =
    if str_eq d id then (d, offer digest q) ∷ ds else (d, q) ∷ offer_digest id digest ds

-- _stream_digest_message, of a digest list that was decoded
unfoldable pub stream_digest : Str → ℕ → Queues → Queues
unfolding offer_digest
stream_digest id digest s = record s { digests = offer_digest id digest s.digests }

without_digest : Str → List (Str × Queue ℕ) → List (Str × Queue ℕ)
without_digest id [] = []
without_digest id ((d, q) ∷ ds) = if str_eq d id then ds else (d, q) ∷ without_digest id ds

unfoldable pub close_digests : Str → Queues → Queues
unfolding without_digest
close_digests id s = record s { digests = without_digest id s.digests }

-- read_idle_timeouts: one reader at a time
open_if_none : Option (Queue ℕ) → ℕ → Queues → Result Queues
open_if_none (some q) queue_size s = err value_error
open_if_none none queue_size s =
    ok (record s { timeouts = some (record { maxsize = queue_size; items = [] }) })

unfoldable pub open_timeouts : ℕ → Queues → Result Queues
unfolding open_if_none
open_timeouts queue_size s = open_if_none s.timeouts queue_size s

unfoldable pub close_timeouts : Queues → Queues
close_timeouts s = record s { timeouts = none }

offer_timeout : ℕ → Option (Queue ℕ) → Option (Queue ℕ)
offer_timeout t none = none
offer_timeout t (some q) = some (offer t q)

-- _stream_timeout_message
unfoldable pub stream_timeout : ℕ → Queues → Queues
unfolding offer_timeout
stream_timeout t s = record s { timeouts = offer_timeout t s.timeouts }
