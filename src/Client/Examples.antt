-- ===== src/Client/Examples.antt =====
-- Errors of the client at concrete details.
use finsy.Prelude.{ℕ, ◌≡◌, ◌↔◌, refl, true, none, some, [], ◌∷◌, List, ok, err, index_error}
use finsy.Grpc.{StatusCode}
use finsy.Client.{Detail, parse_error, from_status, is_not_found_only, attach_details}
use finsy.Client.Details.{is_not_found_only_iff, IsMild}

abbrev detail : StatusCode → Detail
detail code = record { canonical_code = code; message = []; space = []; code = 0 }

abbrev details : List Detail
details = detail StatusCode.ok ∷ detail StatusCode.not_found ∷ []

parsed :
    parse_error {Update = ℕ} 0 details
    ≡ (1, record { detail = detail StatusCode.not_found; subvalue = none }) ∷ []
unfolding parse_error
parsed = refl

attached :
    attach_details {Update = ℕ} (10 ∷ 20 ∷ []) (parse_error 0 details)
    ≡ ok ((1, record { detail = detail StatusCode.not_found; subvalue = some 20 }) ∷ [])
unfolding attach_details parse_error
attached = refl

no_update : attach_details {Update = ℕ} (10 ∷ []) (parse_error 0 details) ≡ err index_error
unfolding attach_details parse_error
no_update = refl

is_not_found_only_iff_example :
    (is_not_found_only {Update = ℕ} (from_status StatusCode.unknown [] details) ≡ true)
    ↔ ((StatusCode.unknown ≡ StatusCode.unknown) × IsMild details)
is_not_found_only_iff_example = is_not_found_only_iff ℕ StatusCode.unknown [] details
