-- ===== src/Values/Ternary/Laws.antt =====
-- Ternary values: pairs are read back, and so is the text of a value and its mask.
use native.Mathlib.Nat.{pow-le-pow_right}
use finsy.Prelude.{value_error}
use finsy.Prelude.{ℕ, ◌^◌, ◌<◌, ◌≡◌, refl, ap, ◌∙◌, subst}
use finsy.Prelude.{arith, Bytes, ok, err}
use finsy.Prelude.{>>=-eq-ok}
use finsy.Prelude.Int.{pos}
use finsy.Bits.{pow_pos}
use finsy.Values.Masks.{all_ones}
use finsy.Values.Exact.{
  ExactValue, DecodeFormat, int, ipv4, encode_masked, encode_number, exact_int, encode_exact,
  decode_exact, present, no_mask,
}
use finsy.Values.Exact.Laws.{
  shortest, exact_int-int, encode_masked_fits, decode_exact-encode_exact, apply_mask-no_mask,
}
use finsy.Values.Ternary.{exact, encode_pair, decode_pair, encode_ternary}

-- Both parts of an encoded pair are read back, in any format.
pub decode_pair-encode_pair :
    (a b : ExactValue) (w : ℕ) (format : DecodeFormat) {x y : Bytes}
    → 0 < w
    → encode_pair a b w ≡ ok (x, y)
    → (n m : ℕ) × (exact_int a w ≡ ok (pos n))
      × (exact_int b w ≡ ok (pos m))
      × (decode_pair x y w format ≡ ok (present n w format, present m w format))
unfolding encode_pair decode_pair
decode_pair-encode_pair a b w format {x} {y} pos_w e =
    let (x', ex, e') = >>=-eq-ok (encode_exact a w) _ e in
    let (y', ey, done) = >>=-eq-ok (encode_exact b w) _ e' in
    let same : (x' ≡ x) × (y' ≡ y) = ground (arith) in
    let (n, is_n, _, dx) = decode_exact-encode_exact a w format pos_w ex in
    let (m, is_m, _, dy) = decode_exact-encode_exact b w format pos_w ey in
    let dx' = subst (λ s. decode_exact s w format ≡ ok (present n w format)) same.0 dx in
    let dy' = subst (λ s. decode_exact s w format ≡ ok (present m w format)) same.1 dy in
    (n, m, is_n, is_m, rw (dx', dy') refl)

pub exact_shortest :
    (v : ExactValue) (w n : ℕ)
    → 0 < w
    → exact_int v w ≡ ok (pos n)
    → n < 2 ^ w
    → encode_exact v w ≡ ok (shortest w n)
exact_shortest v w n h e fits =
    encode_masked_fits v w n no_mask h e fits
    ∙ ap (λ (k : ℕ). ok (shortest w k)) (apply_mask-no_mask n)

ipv4_refused : (n w : ℕ) → 32 < w → encode_exact (ipv4 n) w ≡ err value_error
unfolding encode_masked encode_number exact_int
ipv4_refused n w wide = ground arith

-- An IPv4 address alone is encoded as a ternary value at every width above 32, where the exact codec
-- refuses it.
encode_ternary_ipv4 :
    (n w : ℕ)
    → n < 2 ^ 32
    → 32 < w
    → (encode_ternary (exact (ipv4 n)) w ≡ ok (shortest w n, shortest w (all_ones w)))
      × (encode_exact (ipv4 n) w ≡ err value_error)
unfolding encode_ternary encode_pair
encode_ternary_ipv4 n w fits wide =
    let pos_w : 0 < w = omega arith in
    let room = pow-le-pow_right {n = 2} (omega arith) {i = 32} {j = w} (omega arith) in
    let ones : all_ones w < 2 ^ w = unfold all_ones in omega (arith, pow_pos w) in
    let number = exact_shortest (int (pos n)) w n pos_w (exact_int-int (pos n) w) (omega arith) in
    let mask =
      exact_shortest (int (pos (all_ones w))) w (all_ones w) pos_w (exact_int-int _ w) ones in
    (rw (number, mask) refl, ipv4_refused n w wide)
