-- ===== src/Values/Exact/Laws.antt =====
-- Encoding and decoding of exact values are inverse to one another.
use finsy.Prelude.{ℕ, ◌+◌, ◌-◌, ◌/◌, ◌%◌, ◌^◌, ◌≤◌, ◌<◌, ◌≡◌, refl, ap, sym, ◌∙◌}
use finsy.Prelude.{arith, [], ◌∷◌, Bytes, All, ok}
use finsy.Prelude.{>>=-eq-ok, inl, inr, Bool-cases, Bool, true, false}
use finsy.Prelude.Int.{ℤ, pos, negsuc, eqb_ℤ}
use finsy.Prelude.{lt→ltb, ne→==_false}
use finsy.Bits.{bit_and-le_left, pow_pos}
use finsy.Bytes.{IsByte, be_bytes, to_bytes, from_bytes}
use finsy.Bytes.Laws.{from_bytes-be_bytes, pow-le-bytes}
use finsy.Values.Masks.{p4r_truncate, p4r_minimum_string_size, and_int, all_ones}
use finsy.Values.Masks.Laws.{and_int-not_ones}
use finsy.Values.Masks.Truncate.{
  from_bytes-p4r_truncate, p4r_truncate-canonical, p4r_truncate-ne-nil,
}
use finsy.Values.Exact.{
  ExactValue, DecodeFormat, int, exact_int, in_width, apply_mask, no_mask, encode_number,
  encode_masked, encode_exact, decode_number, present, decode_exact,
}

pub exact_int-int : (n : ℤ) (w : ℕ) → exact_int (int n) w ≡ ok n
unfolding exact_int
exact_int-int n w = refl

-- The shortest byte string of `n`, from the width's own size.
abbrev pub shortest : ℕ → ℕ → Bytes
shortest w n = p4r_truncate (be_bytes ((w + 7) / 8) n)

pub from_bytes-shortest : (w n : ℕ) → n < 2 ^ w → from_bytes (shortest w n) ≡ n
from_bytes-shortest w n h =
    from_bytes-p4r_truncate (be_bytes ((w + 7) / 8) n)
    ∙ from_bytes-be_bytes ((w + 7) / 8) n (omega (arith, pow-le-bytes w))

pub apply_mask-le : (n : ℕ) (m : ℤ) → apply_mask n m ≤ n
unfolding apply_mask and_int
apply_mask-le n (pos m) = ground (arith, bit_and-le_left n m)
apply_mask-le n (negsuc m) = ground arith

pub apply_mask-no_mask : (n : ℕ) → apply_mask n no_mask ≡ n
unfolding apply_mask
apply_mask-no_mask n = refl

-- The mask `~all_ones(k)` clears the low `k` bits.
pub apply_mask-prefix : (n k : ℕ) → apply_mask n (negsuc (all_ones k)) ≡ n - n % 2 ^ k
unfolding apply_mask
apply_mask-prefix n k = elim (Bool-cases (eqb_ℤ (negsuc (all_ones k)) no_mask)) [
  | inr other ↦ rw other (and_int-not_ones n k)
  | inl same ↦
      let none_set : all_ones k ≡ 0 = ground arith in
      let one : 2 ^ k ≡ 1 = unfold all_ones in omega (arith, pow_pos k) in
      rw (same, one) (omega arith)
]

to_bytes-fits : (size n : ℕ) → n < 256 ^ size → to_bytes size (pos n) ≡ ok (be_bytes size n)
unfolding to_bytes
to_bytes-fits size n h = ground arith

encode_number_fits :
    (v : ExactValue) (w n : ℕ) (mask : ℤ)
    → 0 < w
    → exact_int v w ≡ ok (pos n)
    → n < 2 ^ w
    → encode_number v w mask ≡ ok (shortest w (apply_mask n mask))
unfolding encode_number in_width p4r_minimum_string_size
encode_number_fits v w n mask pos_w e fits =
    let room =
      to_bytes-fits ((w + 7) / 8) (apply_mask n mask)
        (omega (arith, apply_mask-le n mask, pow-le-bytes w)) in
    rw (e, lt→ltb n (2 ^ w) fits, ne→==_false w pos_w, room) refl

-- What is encoded at a width of at least one bit is a number that fits, without the masked bits,
-- in the shortest form.
pub encode_masked_fits :
    (v : ExactValue) (w n : ℕ) (mask : ℤ)
    → 0 < w
    → exact_int v w ≡ ok (pos n)
    → n < 2 ^ w
    → encode_masked v w mask ≡ ok (shortest w (apply_mask n mask))
unfolding encode_masked
encode_masked_fits v w n mask pos_w e fits =
    rw (ne→==_false w pos_w) (encode_number_fits v w n mask pos_w e fits)

in_width_inv : (i : ℤ) (w : ℕ) {n : ℕ} → in_width i w ≡ ok n → (i ≡ pos n) × (n < 2 ^ w)
unfolding in_width
in_width_inv (pos i) w e = ground arith
in_width_inv (negsuc i) w e = cc

-- Whatever is encoded at such a width stands for a number that fits.
pub encode_masked_inv :
    (v : ExactValue) (w : ℕ) (mask : ℤ) {bs : Bytes}
    → 0 < w
    → encode_masked v w mask ≡ ok bs
    → (n : ℕ) × (exact_int v w ≡ ok (pos n)) × (n < 2 ^ w) × (bs ≡ shortest w (apply_mask n mask))
unfolding encode_masked encode_number
encode_masked_inv v w mask {bs} pos_w e =
    let number = rw (ne→==_false w pos_w) at e in
    let (i, e1, e2) = >>=-eq-ok (exact_int v w) _ number in
    let (n, e3, e4) = >>=-eq-ok (in_width i w) _ e2 in
    let (same, fits) = in_width_inv i w e3 in
    let is_n : exact_int v w ≡ ok (pos n) = e1 ∙ ap ok same in
    (n, is_n, fits, cc (encode_number_fits v w n mask pos_w is_n fits, number))

decode_number-shortest :
    (w n : ℕ) (bs : Bytes) → bs ≡ shortest w n → n < 2 ^ w → decode_number bs w ≡ ok n
unfolding decode_number
decode_number-shortest w n [] e h = absurd (p4r_truncate-ne-nil _ (sym e))
decode_number-shortest w n (b ∷ bs) e h =
    let number : from_bytes (b ∷ bs) ≡ n = ap from_bytes e ∙ from_bytes-shortest w n h in
    rw (number, lt→ltb n (2 ^ w) h) refl

pub decode_exact-shortest :
    (w n : ℕ) (format : DecodeFormat)
    → 0 < w
    → n < 2 ^ w
    → decode_exact (shortest w n) w format ≡ ok (present n w format)
unfolding decode_exact
decode_exact-shortest w n format pos_w h =
    rw (ne→==_false w pos_w, decode_number-shortest w n _ refl h) refl

-- On a width of at least one bit, a value that is encoded has a number that fits the width, and
-- decoding the bytes, in any format, presents that number.
pub decode_exact-encode_exact :
    (v : ExactValue) (w : ℕ) (format : DecodeFormat) {bs : Bytes}
    → 0 < w
    → encode_exact v w ≡ ok bs
    → (n : ℕ) × (exact_int v w ≡ ok (pos n))
      × (n < 2 ^ w)
      × (decode_exact bs w format ≡ ok (present n w format))
unfolding decode_exact
decode_exact-encode_exact v w format {bs} pos_w e =
    let (n, is_n, fits, same) = encode_masked_inv v w no_mask pos_w e in
    let own : bs ≡ shortest w n = same ∙ ap (shortest w) (apply_mask-no_mask n) in
    (n, is_n, fits, rw (ne→==_false w pos_w, decode_number-shortest w n bs own fits) refl)

pub decode_number_inv :
    (bs : Bytes) (w : ℕ) {n : ℕ} → decode_number bs w ≡ ok n → (from_bytes bs ≡ n) × (n < 2 ^ w)
unfolding decode_number
decode_number_inv [] w e = cc
decode_number_inv (b ∷ bs) w e = ground arith

-- What `present` gives without STRING is read as the same number.
pub exact_int-present :
    (n w : ℕ) (as_address : Bool)
    → exact_int (present n w (record { as_string = false; as_address = as_address })) w ≡ ok (pos n)
unfolding exact_int present
exact_int-present n w false = refl
exact_int-present n w true = ground arith

-- On a width of at least one bit, bytes that are decoded as a number or an address are encoded
-- again as their shortest form.
pub encode_exact-decode_exact :
    (bs : Bytes) (w : ℕ) (as_address : Bool) {v : ExactValue}
    → 0 < w
    → All IsByte bs
    → decode_exact bs w (record { as_string = false; as_address = as_address }) ≡ ok v
    → encode_exact v w ≡ ok (p4r_truncate bs)
unfolding decode_exact
encode_exact-decode_exact bs w as_address {v} pos_w bytes e =
    let format : DecodeFormat = record { as_string = false; as_address = as_address } in
    let number = rw (ne→==_false w pos_w) at e in
    let (n, e1, e2) = >>=-eq-ok (decode_number bs w) _ number in
    let (value, fits) = decode_number_inv bs w e1 in
    let is_v : v ≡ present n w format = ground arith in
    let is_n : exact_int v w ≡ ok (pos n) =
      ap (λ x. exact_int x w) is_v ∙ exact_int-present n w as_address in
    let room : from_bytes bs < 256 ^ ((w + 7) / 8) = omega (arith, pow-le-bytes w) in
    encode_masked_fits v w n no_mask pos_w is_n fits
    ∙ ap (λ (m : ℕ). ok (shortest w m)) (apply_mask-no_mask n ∙ sym value)
    ∙ ap ok (p4r_truncate-canonical bs ((w + 7) / 8) bytes room)
