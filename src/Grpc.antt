-- ===== src/Grpc.antt =====
-- finsy/grpcutil.py: the status codes of gRPC.

pub data StatusCode : Type 0 where
  ok cancelled unknown invalid_argument deadline_exceeded not_found already_exists : StatusCode
  permission_denied resource_exhausted failed_precondition aborted out_of_range : StatusCode
  unimplemented internal unavailable data_loss unauthenticated : StatusCode
