-- ===== src/Values/Lpm/Laws.antt =====
-- Longest-prefix-match values: what is encoded, and that decoding it cannot fail.
use native.Mathlib.Nat.{div-add-mod}
use finsy.Bits.{mod_unique, pow_pos}
use finsy.Prelude.{ℕ, ◌-◌, ◌/◌, ◌%◌, ◌^◌, ◌≤◌, ◌<◌, ◌≡◌, refl, ◌∙◌}
use finsy.Prelude.{arith, Bytes, ok}
use finsy.Prelude.{le→leb, le→ltb_false, ne→==_false, true, false}
use finsy.Prelude.Int.{ℤ, pos, negsuc}
use finsy.IpAddress.{network}
use finsy.Values.Masks.{all_ones}
use finsy.Values.Exact.{int, default_format, DecodeFormat, ExactValue, exact_int, present}
use finsy.Values.Exact.Laws.{encode_masked_fits, apply_mask-prefix, shortest, decode_exact-shortest}
use finsy.Values.Lpm.{
  pair, ipv4_network, ipv6_network, encode_prefixed, encode_lpm, decode_lpm, lpm_result,
}

-- The number with the bits below the prefix cleared.
abbrev pub cleared : ℕ → ℕ → ℕ → ℕ
cleared n w p = n - n % 2 ^ (w - p)

-- A value with a prefix is encoded with the bits below the prefix cleared.
pub encode_prefixed_fits :
    (v : ExactValue) (w n p : ℕ)
    → 0 < w
    → exact_int v w ≡ ok (pos n)
    → n < 2 ^ w
    → p ≤ w
    → encode_prefixed v w (pos p) ≡ ok (shortest w (cleared n w p), p)
unfolding encode_prefixed
encode_prefixed_fits v w n p pos_w e fits h =
    let masked = encode_masked_fits v w n (negsuc (all_ones (w - p))) pos_w e fits in
    rw (le→ltb_false w p h, masked, apply_mask-prefix n (w - p)) refl

pub encode_lpm-pair :
    (v : ExactValue) (w : ℕ) (p : ℤ) → 0 < w → encode_lpm (pair v p) w ≡ encode_prefixed v w p
unfolding encode_lpm
encode_lpm-pair v w p h = rw (ne→==_false w h) refl

pub decode_lpm-shortest :
    (w m p : ℕ) (format : DecodeFormat)
    → 0 < w
    → m < 2 ^ w
    → decode_lpm (shortest w m) p w format ≡ lpm_result (present m w format) p w
unfolding decode_lpm
decode_lpm-shortest w m p format pos_w h = rw (decode_exact-shortest w m format pos_w h) refl

-- On a width of at least one bit: a value whose number fits the width, with a prefix within the
-- width, is encoded, and decoding gives the number with the bits below the prefix cleared, and
-- the prefix.
pub decode_lpm-encode_lpm :
    (v : ExactValue) (w n p : ℕ)
    → 0 < w
    → exact_int v w ≡ ok (pos n)
    → n < 2 ^ w
    → p ≤ w
    → (bs : Bytes) × (encode_lpm (pair v (pos p)) w ≡ ok (bs, p))
      × (decode_lpm bs p w default_format ≡ ok (pair (int (pos (cleared n w p))) (pos p)))
unfolding lpm_result present
decode_lpm-encode_lpm v w n p pos_w e fits h = (
  shortest w (cleared n w p),
  encode_lpm-pair v w (pos p) pos_w ∙ encode_prefixed_fits v w n p pos_w e fits h,
  decode_lpm-shortest w (cleared n w p) p default_format pos_w (omega arith),
)

pub cleared-mod : (n w p : ℕ) → cleared n w p % 2 ^ (w - p) ≡ 0
cleared-mod n w p =
    mod_unique (cleared n w p) (2 ^ (w - p)) (n / 2 ^ (w - p)) 0
      (omega (arith, div-add-mod n (2 ^ (w - p)))) (pow_pos (w - p))

pub network-cleared :
    (width n p : ℕ) → p ≤ width → network width (cleared n width p) p ≡ ok (cleared n width p, p)
unfolding network
network-cleared width n p h = rw (le→leb p width h, cleared-mod n width p) refl

abbrev pub as_addresses : DecodeFormat
as_addresses = record { as_string = false; as_address = true }

-- With addresses as the format, a pair on 32 or 128 bits that fits is encoded, and decoding gives
-- the network of the cleared number: its constructor does not refuse it.
decode_lpm_network :
    (v v' : ExactValue) (n m p q : ℕ)
    → exact_int v 32 ≡ ok (pos n)
    → n < 2 ^ 32
    → p ≤ 32
    → exact_int v' 128 ≡ ok (pos m)
    → m < 2 ^ 128
    → q ≤ 128
    → ((bs : Bytes) × (encode_lpm (pair v (pos p)) 32 ≡ ok (bs, p))
        × (decode_lpm bs p 32 as_addresses ≡ ok (ipv4_network (cleared n 32 p) p)))
      × ((bs : Bytes) × (encode_lpm (pair v' (pos q)) 128 ≡ ok (bs, q))
          × (decode_lpm bs q 128 as_addresses ≡ ok (ipv6_network (cleared m 128 q) q)))
unfolding lpm_result present
decode_lpm_network v v' n m p q e fits h e' fits' h' = (
  (
    shortest 32 (cleared n 32 p),
    encode_lpm-pair v 32 (pos p) (omega arith)
        ∙ encode_prefixed_fits v 32 n p (omega arith) e fits h,
    decode_lpm-shortest 32 (cleared n 32 p) p as_addresses (omega arith) (omega arith)
        ∙ rw (network-cleared 32 n p h) refl,
  ),
  (
    shortest 128 (cleared m 128 q),
    encode_lpm-pair v' 128 (pos q) (omega arith)
        ∙ encode_prefixed_fits v' 128 m q (omega arith) e' fits' h',
    decode_lpm-shortest 128 (cleared m 128 q) q as_addresses (omega arith) (omega arith)
        ∙ rw (network-cleared 128 m q h') refl,
  ),
)
