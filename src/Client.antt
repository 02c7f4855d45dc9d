-- ===== src/Client.antt =====
-- finsy/p4client.py: the errors of the P4Runtime client.
-- A `google.rpc.Status` has its details unpacked into `p4r.Error` messages.
pub mod Details
mod Examples
use finsy.Prelude.{
  ℕ, suc, ◌+◌, Bool, true, false, ◌&&◌, not, Option, none, some, List, [], ◌∷◌, get_elem?,
}
use finsy.Prelude.{Str, Result, ok, err, Error, index_error, ◌>>=◌, if◌then◌else◌}
use finsy.Grpc
use finsy.Grpc.{StatusCode}

abbrev pub is_ok : StatusCode → Bool
is_ok StatusCode.ok = true
is_ok _ = false

abbrev pub is_not_found : StatusCode → Bool
is_not_found StatusCode.not_found = true
is_not_found _ = false

abbrev pub is_unknown : StatusCode → Bool
is_unknown StatusCode.unknown = true
is_unknown _ = false

-- p4r.Error
pub record Detail : Type 0 where
  pub canonical_code : StatusCode
  pub message : Str
  pub space : Str
  pub code : ℕ

-- The messages of a write request are of type `Update`.
pub record P4Error (Update : Type 0) : Type 0 where
  pub detail : Detail
  pub subvalue : Option Update

-- A dict by the places of the details, in the order of insertion
pub record RpcStatus (Update : Type 0) : Type 0 where
  pub code : StatusCode
  pub message : Str
  pub details : List (ℕ × P4Error Update)

abbrev of_detail : {Update : Type 0} → Detail → P4Error Update
of_detail d = record { detail = d; subvalue = none }

-- _parse_error, from place `i` on
unfoldable pub parse_error : {Update : Type 0} → ℕ → List Detail → List (ℕ × P4Error Update)
parse_error i [] = []
parse_error i (d ∷ ds) =
    let rest = parse_error (i + 1) ds in
    if is_ok d.canonical_code then rest else (i, of_detail d) ∷ rest

-- from_status
unfoldable pub from_status : {Update : Type 0} → StatusCode → Str → List Detail → RpcStatus Update
from_status code message details = record {
  code = code;
  message = message;
  details = parse_error 0 details;
}

all_not_found : {Update : Type 0} → List (ℕ × P4Error Update) → Bool
all_not_found [] = true
all_not_found ((i, e) ∷ es) = is_not_found e.detail.canonical_code && all_not_found es

unfoldable pub is_not_found_only : {Update : Type 0} → RpcStatus Update → Bool
unfolding all_not_found
is_not_found_only s = if is_unknown s.code then all_not_found s.details else false

-- `value.subvalue = msg.updates[key]`, for each detail
attach : {Update : Type 0} → List Update → ℕ × P4Error Update → Result (ℕ × P4Error Update)
attach updates (i, e) = elim (get_elem? updates i) [
  | none ↦ err index_error
  | some u ↦ ok (i, record e { subvalue = some u })
]

unfoldable pub attach_details :
    {Update : Type 0} → List Update → List (ℕ × P4Error Update) → Result (List (ℕ × P4Error Update))
unfolding attach
attach_details updates [] = ok []
attach_details updates (e ∷ es) = do
  first ← attach updates e
  rest ← attach_details updates es
  ok (first ∷ rest)
