-- ===== src/Switch/Write/Outcomes.antt =====
-- What is sent for a list of messages, which errors are raised, and what delete_many deletes.
use finsy.Prelude.{◌≡◌, ◌↔◌, ◌⊎◌, refl, ap, ◌∙◌, sym, arith, Bool, true, false}
use finsy.Prelude.{Option, none, some, List, [], ◌∷◌, ◌++◌}
use mathlib.Core.List.{append_assoc, append-nil}
use finsy.Client.{RpcStatus, is_not_found_only}
use finsy.Switch.Write.{
  Update, Message, stream, update, Sent, stream_message, write_request, returns, raises, handle,
  write_request_outcome, write_updates, if_any, write_from, write,
}

-- An error of a write request is raised exactly if it is not to be a warning, and the request is
-- strict or something else was wrong than entities that were not found. Else the call returns; the
-- assertion never fails.
pub write_request_outcome_lem :
    (ex : RpcStatus Update) (strict warn_only : Bool)
    → ((write_request_outcome (some ex) strict warn_only ≡ raises ex)
        ↔ ((warn_only ≡ false) × ((strict ≡ true) ⊎ (is_not_found_only ex ≡ false))))
      × ((write_request_outcome (some ex) strict warn_only ≡ returns)
          ⊎ (write_request_outcome (some ex) strict warn_only ≡ raises ex))
      × (write_request_outcome none strict warn_only ≡ returns)
unfolding write_request_outcome handle
write_request_outcome_lem ex strict warn_only =
    ((λ h. ground arith, λ h. ground arith), ground arith, refl)

unfoldable pub streams : List Message → List Sent
streams [] = []
streams (stream m ∷ ms) = stream_message m ∷ streams ms
streams (update u ∷ ms) = streams ms

unfoldable pub updates : List Message → List Update
updates [] = []
updates (stream m ∷ ms) = updates ms
updates (update u ∷ ms) = u ∷ updates ms

abbrev pub requests : List Update → List Sent
requests [] = []
requests (u ∷ us) = write_request (u ∷ us) ∷ []

module _ (answer : List Update → Option (RpcStatus Update)) where
  if_any-sent :
      (us : List Update) (strict warn_only : Bool)
      → (if_any answer us strict warn_only).1 ≡ requests us
  unfolding if_any write_updates
  if_any-sent [] strict warn_only = refl
  if_any-sent (u ∷ us) strict warn_only = refl

  write_from-sent :
      (ms : List Message) (us : List Update) (strict warn_only : Bool)
      → (write_from answer ms us strict warn_only).1 ≡ streams ms ++ requests (us ++ updates ms)
  unfolding write_from streams updates
  write_from-sent [] us strict warn_only =
      if_any-sent us strict warn_only ∙ ap requests (sym (append-nil us))
  write_from-sent (stream m ∷ ms) us strict warn_only =
      ap (λ r. stream_message m ∷ r) (write_from-sent ms us strict warn_only)
  write_from-sent (update u ∷ ms) us strict warn_only =
      write_from-sent ms (us ++ (u ∷ [])) strict warn_only
      ∙ ap (λ (r : List Update). streams ms ++ requests r) (append_assoc us (u ∷ []) (updates ms))

  -- Writing sends the stream messages in their order, and after them the updates in their order in one
  -- request, or no request if there is no update, whatever the answer.
  pub write_lem :
      (ms : List Message) (strict warn_only : Bool)
      → (write answer ms strict warn_only).1 ≡ streams ms ++ requests (updates ms)
  unfolding write
  write_lem ms strict warn_only = write_from-sent ms [] strict warn_only
