-- ===== src/Client/Details.antt =====
-- Which errors are only that entities were not found, and to which updates errors belong.
use finsy.Prelude.{ℕ, ◌+◌, ◌≡◌, ◌↔◌, ◌⊎◌, refl, arith, true}
use finsy.Prelude.{List, [], ◌∷◌, Str}
use finsy.Grpc.{StatusCode}
use finsy.Client.{Detail, parse_error, from_status, is_not_found_only, all_not_found}

-- OK or NOT_FOUND
abbrev pub IsMild : List Detail → Type 0
IsMild [] = Unit
IsMild (d ∷ ds) =
    ((d.canonical_code ≡ StatusCode.ok) ⊎ (d.canonical_code ≡ StatusCode.not_found)) × IsMild ds

all_not_found_iff :
    (Update : Type 0) (i : ℕ) (ds : List Detail)
    → (all_not_found {Update = Update} (parse_error i ds) ≡ true) ↔ IsMild ds
unfolding all_not_found parse_error
all_not_found_iff Update i [] = (λ _. tt, λ _. refl)
all_not_found_iff Update i (d ∷ ds) =
    let (there, back) = all_not_found_iff Update (i + 1) ds in
    (λ h. ground (arith, there), λ h. ground (arith, back h.1))

-- An error is of entities that were not found only, exactly if its code is UNKNOWN and each of its
-- details is OK or NOT_FOUND; it may have no details.
pub is_not_found_only_iff :
    (Update : Type 0) (code : StatusCode) (message : Str) (ds : List Detail)
    → (is_not_found_only {Update = Update} (from_status code message ds) ≡ true)
      ↔ ((code ≡ StatusCode.unknown) × IsMild ds)
unfolding is_not_found_only from_status
is_not_found_only_iff Update code message ds =
    let (there, back) = all_not_found_iff Update 0 ds in
    (λ h. ground (arith, there), λ h. ground (arith, back h.1))
