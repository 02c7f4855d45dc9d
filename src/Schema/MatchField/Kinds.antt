-- ===== src/Schema/MatchField/Kinds.antt =====
-- The messages of each type of match: they are decoded, and encoding what was decoded gives the same
-- message.
use finsy.Prelude.{
  ℕ, ◌*◌, ◌-◌, ◌%◌, ◌^◌, ◌≤◌, ◌<◌, ◌≡◌, ◌⊎◌, refl, ap, sym, subst, ◌∙◌, inl, inr, Bool, true, false,
  some, [], ◌∷◌, Str, Bytes, codes, str_eq, ◌==◌, Bool-cases, Option-cases, ne→==_false, le→leb,
  ==_iff,
}
use finsy.Prelude.{arith, ok, >>=-eq-ok, Result-cases}
use finsy.Prelude.Int.{ℤ, pos}
use finsy.Text.{split_once}
use finsy.IpAddress.{network}
use finsy.Values.Masks.{all_ones}
use finsy.Values.Exact.{ExactValue, int, str, ipv4, ipv6, mac, encode_exact, present, exact_int}
use finsy.Values.Exact.Laws.{shortest}
use finsy.Values.Lpm.{LpmValue, parse_lpm_str, encode_lpm, lpm_result, of_width, with_prefix}
use finsy.Values.Lpm.Laws.{cleared, encode_prefixed_fits, encode_lpm-pair, decode_lpm-shortest}
use finsy.Values.Ternary.Laws.{exact_shortest}
use finsy.Values.Ternary.{
  TernaryValue, encode_pair, decode_pair, parse_ternary_str, encode_ternary, decode_ternary,
}
use finsy.Values.Range.{RangeValue, encode_range, decode_range, range_result}
use finsy.Schema.MatchField.{
  MatchType, exact, lpm, ternary, range, optional, FieldValue, one, pair, ipv4_network,
  ipv6_network, Match, exact_match, optional_match, lpm_match, ternary_match, range_match,
  unless_any, encode_match, decode_match,
}
use finsy.Schema.MatchField.Encoded.{
  IsEncoded, IsPrefixed, ArePaired, shown_as, encode_exact-IsEncoded, decode_exact-IsEncoded,
  encode_pair-ArePaired, parse_lpm_str-IsPrefixed, IsNetwork,
}

parse_ternary_str-ArePaired :
    (s : Str) (w : ℕ) {both : Bytes × Bytes}
    → 0 < w
    → parse_ternary_str s w ≡ ok both
    → ArePaired w both
unfolding parse_ternary_str
parse_ternary_str-ArePaired s w {both} h e = elim (Option-cases (split_once (codes "/&") s)) [
  | inr ((value, mask), parts) ↦
      encode_pair-ArePaired (str value) (str mask) w h (rw (parts, parse_ternary_str) at e)
  | inl whole ↦ elim (Result-cases (parse_lpm_str s w)) [
    | inr (x, ex) ↦ cc (rw (whole, ex) at e)
    | inl ((bs, p), ep) ↦
        let ones : ℤ = pos (all_ones p * 2 ^ (w - p)) in
        let (mask, em, e1) = >>=-eq-ok (encode_exact (int ones) w) _ (rw (whole, ep) at e) in
        let (n, fits, own, _, _) = parse_lpm_str-IsPrefixed s w h ep in
        let same : both ≡ (bs, mask) = ground arith in
        subst (ArePaired w) (sym same) ((n, fits, own), encode_exact-IsEncoded (int ones) w h em)
  ]
]

pub encode_ternary-ArePaired :
    (v : TernaryValue) (w : ℕ) {both : Bytes × Bytes}
    → 0 < w
    → encode_ternary v w ≡ ok both
    → ArePaired w both
unfolding encode_ternary
encode_ternary-ArePaired (TernaryValue.exact (int n)) w h e = encode_pair-ArePaired _ _ w h e
encode_ternary-ArePaired (TernaryValue.exact (str s)) w h e = parse_ternary_str-ArePaired s w h e
encode_ternary-ArePaired (TernaryValue.exact (ipv4 n)) w h e = encode_pair-ArePaired _ _ w h e
encode_ternary-ArePaired (TernaryValue.exact (ipv6 n)) w h e = encode_pair-ArePaired _ _ w h e
encode_ternary-ArePaired (TernaryValue.exact (mac a)) w h e = cc
encode_ternary-ArePaired (TernaryValue.pair v m) w h e = encode_pair-ArePaired v m w h e
encode_ternary-ArePaired (TernaryValue.ipv4_network n p) w h e = encode_pair-ArePaired _ _ w h e
encode_ternary-ArePaired (TernaryValue.ipv6_network n p) w h e = encode_pair-ArePaired _ _ w h e

pub encode_range-ArePaired :
    (v : RangeValue) (w : ℕ) {both : Bytes × Bytes}
    → 0 < w
    → encode_range v w ≡ ok both
    → ArePaired w both
unfolding encode_range
encode_range-ArePaired (RangeValue.bounds low high) w h e = encode_pair-ArePaired low high w h e
encode_range-ArePaired (RangeValue.text s) w h e =
    elim (Option-cases (split_once (codes "...") s)) [
      | inl whole ↦ cc (rw whole at e)
      | inr ((low, high), parts) ↦ encode_pair-ArePaired (str low) (str high) w h (rw parts at e)
    ]

-- The message is decoded, and encoding the value gives it again.
abbrev pub HasMatch : MatchType → ℕ → Bool → Match → Type 0
HasMatch kind w as_address m =
    (v : FieldValue) × (decode_match m w (shown_as as_address) ≡ ok v)
    × (encode_match kind v w ≡ ok (some m))

pub exact-HasMatch :
    (w : ℕ) (bs : Bytes) (as_address : Bool)
    → 0 < w
    → IsEncoded w bs
    → HasMatch exact w as_address (exact_match bs)
      × HasMatch optional w as_address (optional_match bs)
unfolding encode_match decode_match
exact-HasMatch w bs as_address h code =
    let (n, decoded, again) = decode_exact-IsEncoded w bs as_address h code in
    let v = present n w (shown_as as_address) in
    ((one v, rw decoded refl, rw again refl), (one v, rw decoded refl, rw again refl))

pair_again :
    (w : ℕ) (a b : Bytes) (as_address : Bool)
    → 0 < w
    → ArePaired w (a, b)
    → (n m : ℕ) × (decode_pair a b w (shown_as as_address)
        ≡ ok (present n w (shown_as as_address), present m w (shown_as as_address)))
      × (encode_pair (present n w (shown_as as_address)) (present m w (shown_as as_address)) w
          ≡ ok (a, b))
unfolding encode_pair decode_pair
pair_again w a b as_address h (code, code') =
    let (n, decoded, again) = decode_exact-IsEncoded w a as_address h code in
    let (m, decoded', again') = decode_exact-IsEncoded w b as_address h code' in
    (n, m, rw (decoded, decoded') refl, rw (again, again') refl)

pub ternary-HasMatch :
    (w : ℕ) (a b : Bytes) (as_address : Bool)
    → 0 < w
    → str_eq b (0 ∷ []) ≡ false
    → ArePaired w (a, b)
    → HasMatch ternary w as_address (ternary_match a b)
unfolding encode_match decode_match encode_ternary decode_ternary unless_any
ternary-HasMatch w a b as_address h some_mask codes_of =
    let (n, m, decoded, again) = pair_again w a b as_address h codes_of in
    (
      pair (present n w (shown_as as_address)) (present m w (shown_as as_address)),
      rw decoded refl,
      rw (again, some_mask) refl,
    )

-- What is presented without STRING is no text.
range_result-present :
    (n w : ℕ) (as_address : Bool) (high : ExactValue)
    → range_result (present n w (shown_as as_address)) high
      ≡ ok (RangeValue.bounds (present n w (shown_as as_address)) high)
unfolding range_result present
range_result-present n w false high = refl
range_result-present n w true high = ground arith

pub range-HasMatch :
    (w : ℕ) (a b : Bytes) (as_address : Bool)
    → 0 < w
    → ArePaired w (a, b)
    → HasMatch range w as_address (range_match a b)
unfolding encode_match decode_match encode_range decode_range
range-HasMatch w a b as_address h codes_of =
    let (n, m, decoded, again) = pair_again w a b as_address h codes_of in
    (
      pair (present n w (shown_as as_address)) (present m w (shown_as as_address)),
      rw (decoded, range_result-present n w as_address (present m w (shown_as as_address))) refl,
      rw again refl,
    )

-- Encoding a number of which no bit is set below the prefix
encode_lpm_again :
    (v : ExactValue) (w n p : ℕ)
    → 0 < w
    → exact_int v w ≡ ok (pos n)
    → n < 2 ^ w
    → p ≤ w
    → n % 2 ^ (w - p) ≡ 0
    → encode_lpm (LpmValue.pair v (pos p)) w ≡ ok (shortest w n, p)
encode_lpm_again v w n p h value fits within clear =
    let kept : cleared n w p ≡ n = omega (arith, clear) in
    encode_lpm-pair v w (pos p) h
    ∙ encode_prefixed_fits v w n p h value fits within
    ∙ ap (λ m. ok (shortest w m, p)) kept

pair-HasMatch :
    (v : ExactValue) (w n p : ℕ) (as_address : Bool)
    → 0 < w
    → (p == 0) ≡ false
    → n < 2 ^ w
    → p ≤ w
    → n % 2 ^ (w - p) ≡ 0
    → exact_int v w ≡ ok (pos n)
    → lpm_result (present n w (shown_as as_address)) p w ≡ ok (LpmValue.pair v (pos p))
    → HasMatch lpm w as_address (lpm_match (shortest w n) p)
unfolding encode_match decode_match unless_any
pair-HasMatch v w n p as_address h some_prefix fits within clear value result =
    let decoded = decode_lpm-shortest w n p (shown_as as_address) h fits ∙ result in
    let again = encode_lpm_again v w n p h value fits within clear in
    (pair v (int (pos p)), rw decoded refl, rw (again, some_prefix) refl)

network_lem : (width n p : ℕ) → p ≤ width → n % 2 ^ (width - p) ≡ 0 → network width n p ≡ ok (n, p)
unfolding network
network_lem width n p within clear = rw (le→leb p width within, clear) refl

-- What a number is presented as, without STRING
present-cases :
    (n w : ℕ) (as_address : Bool)
    → (present n w (shown_as as_address) ≡ int (pos n))
      ⊎ (((present n w (shown_as as_address) ≡ mac (record { mac = n })) × (w ≡ 48))
          ⊎ (((present n w (shown_as as_address) ≡ ipv4 n) × (w ≡ 32))
              ⊎ ((present n w (shown_as as_address) ≡ ipv6 n) × (w ≡ 128))))
unfolding present
present-cases n w false = inl refl
present-cases n w true = elim (Bool-cases (w == 128)) [
  | inl is_128 ↦ inr (inr (inr (rw is_128 refl, ground arith)))
  | inr not_128 ↦ elim (Bool-cases (w == 48)) [
    | inl is_48 ↦ inr (inl (rw (not_128, is_48) refl, ground arith))
    | inr not_48 ↦ elim (Bool-cases (w == 32)) [
      | inl is_32 ↦ inr (inr (inl (rw (not_128, not_48, is_32) refl, ground arith)))
      | inr not_32 ↦ inl (rw (not_128, not_48, not_32) refl)
    ]
  ]
]

ipv4-HasMatch :
    (w n p : ℕ) (as_address : Bool)
    → 0 < w
    → (p == 0) ≡ false
    → n < 2 ^ w
    → IsNetwork 32 n p
    → w ≡ 32
    → present n w (shown_as as_address) ≡ ipv4 n
    → HasMatch lpm w as_address (lpm_match (shortest w n) p)
unfolding encode_match decode_match unless_any lpm_result encode_lpm of_width with_prefix exact_int
ipv4-HasMatch w n p as_address h some_prefix fits (within, clear) is_32 shown =
    let even = (==_iff w 32).1 is_32 in
    let result : lpm_result (present n w (shown_as as_address)) p w
        ≡ ok (LpmValue.ipv4_network n p) =
      rw (shown, network_lem 32 n p within clear) refl in
    let decoded = decode_lpm-shortest w n p (shown_as as_address) h fits ∙ result in
    let again = exact_shortest (ipv4 n) w n h (rw even refl) fits in
    (ipv4_network n p, rw decoded refl, rw (ne→==_false w h, even, again, some_prefix) refl)

ipv6-HasMatch :
    (w n p : ℕ) (as_address : Bool)
    → 0 < w
    → (p == 0) ≡ false
    → n < 2 ^ w
    → IsNetwork 128 n p
    → w ≡ 128
    → present n w (shown_as as_address) ≡ ipv6 n
    → HasMatch lpm w as_address (lpm_match (shortest w n) p)
unfolding encode_match decode_match unless_any lpm_result encode_lpm of_width with_prefix exact_int
ipv6-HasMatch w n p as_address h some_prefix fits (within, clear) is_128 shown =
    let even = (==_iff w 128).1 is_128 in
    let result : lpm_result (present n w (shown_as as_address)) p w
        ≡ ok (LpmValue.ipv6_network n p) =
      rw (shown, network_lem 128 n p within clear) refl in
    let decoded = decode_lpm-shortest w n p (shown_as as_address) h fits ∙ result in
    let again = exact_shortest (ipv6 n) w n h (rw even refl) fits in
    (ipv6_network n p, rw decoded refl, rw (ne→==_false w h, even, again, some_prefix) refl)

number-HasMatch :
    (w n p : ℕ) (as_address : Bool)
    → 0 < w
    → (p == 0) ≡ false
    → n < 2 ^ w
    → p ≤ w
    → n % 2 ^ (w - p) ≡ 0
    → HasMatch lpm w as_address (lpm_match (shortest w n) p)
unfolding lpm_result exact_int
number-HasMatch w n p as_address h some_prefix fits within clear =
    elim (present-cases n w as_address) [
      | inl shown ↦
          pair-HasMatch (int (pos n)) w n p as_address h some_prefix fits within clear refl
            (rw shown refl)
      | inr (inl (shown, is_48)) ↦
          pair-HasMatch (mac (record { mac = n })) w n p as_address h some_prefix fits within clear
            (rw is_48 refl) (rw shown refl)
      | inr (inr (inl (shown, is_32))) ↦
          ipv4-HasMatch w n p as_address h some_prefix fits (rw is_32 at within, rw is_32 at clear)
            is_32 shown
      | inr (inr (inr (shown, is_128))) ↦
          ipv6-HasMatch w n p as_address h some_prefix fits
            (rw is_128 at within, rw is_128 at clear) is_128 shown
    ]

pub lpm-HasMatch :
    (w : ℕ) (bs : Bytes) (p : ℕ) (as_address : Bool)
    → 0 < w
    → (p == 0) ≡ false
    → IsPrefixed w (bs, p)
    → HasMatch lpm w as_address (lpm_match bs p)
lpm-HasMatch w bs p as_address h some_prefix (n, fits, own, within, clear) =
    subst (λ s. HasMatch lpm w as_address (lpm_match s p)) (sym own)
      (number-HasMatch w n p as_address h some_prefix fits within clear)
