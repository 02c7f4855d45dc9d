-- ===== src/Entities/Replication.antt =====
-- finsy/p4entity.py: the replicas of packets, multicast groups and clone sessions.
use finsy.Prelude.{ℕ, List, [], ◌∷◌, Str, Bytes, ◌++◌, ◌==◌, if◌then◌else◌, codes, ◌≡◌, refl, ap}
use finsy.Text.{join}
use finsy.Text.Number.{decimal}

-- A replica is a port, or a port with an instance.
pub data Replica : Type 0 where
  port : ℕ → Replica
  port_instance : ℕ → ℕ → Replica

unfoldable pub encode_replica : Replica → ℕ × ℕ
encode_replica (port egress_port) = (egress_port, 0)
encode_replica (port_instance egress_port instance_id) = (egress_port, instance_id)

unfoldable pub decode_replica : ℕ × ℕ → Replica
decode_replica (egress_port, instance_id) = port_instance egress_port instance_id

unfoldable pub encode_replicas : List Replica → List (ℕ × ℕ)
encode_replicas [] = []
encode_replicas (r ∷ rs) = encode_replica r ∷ encode_replicas rs

unfoldable pub decode_replicas : List (ℕ × ℕ) → List Replica
decode_replicas [] = []
decode_replicas (r ∷ rs) = decode_replica r ∷ decode_replicas rs

unfoldable pub format_replica : Replica → Str
format_replica (port n) = decimal n
format_replica (port_instance n instance_id) =
    if instance_id == 0 then decimal n else decimal n ++ (codes "#" ++ decimal instance_id)

format_replicas : List Replica → List Str
format_replicas [] = []
format_replicas (r ∷ rs) = format_replica r ∷ format_replicas rs

unfoldable pub replicas_str : List Replica → Str
unfolding format_replicas
replicas_str replicas = join (codes " ") (format_replicas replicas)

-- P4MulticastGroupEntry and its message
pub record MulticastGroupEntry : Type 0 where
  pub multicast_group_id : ℕ
  pub replicas : List Replica
  pub metadata : Bytes

pub record MulticastGroupMessage : Type 0 where
  pub multicast_group_id : ℕ
  pub replicas : List (ℕ × ℕ)
  pub metadata : Bytes

unfoldable pub encode_multicast : MulticastGroupEntry → MulticastGroupMessage
encode_multicast e = record {
  multicast_group_id = e.multicast_group_id;
  replicas = encode_replicas e.replicas;
  metadata = e.metadata;
}

unfoldable pub decode_multicast : MulticastGroupMessage → MulticastGroupEntry
decode_multicast m = record {
  multicast_group_id = m.multicast_group_id;
  replicas = decode_replicas m.replicas;
  metadata = m.metadata;
}

-- P4CloneSessionEntry and its message
pub record CloneSessionEntry : Type 0 where
  pub session_id : ℕ
  pub class_of_service : ℕ
  pub packet_length_bytes : ℕ
  pub replicas : List Replica

pub record CloneSessionMessage : Type 0 where
  pub session_id : ℕ
  pub class_of_service : ℕ
  pub packet_length_bytes : ℕ
  pub replicas : List (ℕ × ℕ)

unfoldable pub encode_clone : CloneSessionEntry → CloneSessionMessage
encode_clone e = record {
  session_id = e.session_id;
  class_of_service = e.class_of_service;
  packet_length_bytes = e.packet_length_bytes;
  replicas = encode_replicas e.replicas;
}

unfoldable pub decode_clone : CloneSessionMessage → CloneSessionEntry
decode_clone m = record {
  session_id = m.session_id;
  class_of_service = m.class_of_service;
  packet_length_bytes = m.packet_length_bytes;
  replicas = decode_replicas m.replicas;
}

-- Encoding the replicas that were decoded gives the same ones.
pub replicas_again : (rs : List (ℕ × ℕ)) → encode_replicas (decode_replicas rs) ≡ rs
unfolding encode_replicas decode_replicas encode_replica decode_replica
replicas_again [] = refl
replicas_again (r ∷ rs) = ap (λ rest. r ∷ rest) (replicas_again rs)
