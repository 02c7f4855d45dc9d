-- ===== src/Values/Masks/Laws.antt =====
-- What the helpers on masks and on byte strings compute.
use native.Mathlib.Nat.{mod-lt, pow-le-pow_right, pow-suc}
use native.Mathlib.Decide.{dec_lt}
use finsy.Prelude.{ℕ, suc, ◌+◌, ◌-◌, ◌%◌, ◌^◌, ◌≤◌, ◌≡◌, refl, ap}
use finsy.Prelude.{arith, bit_and, ◌==◌, ==_iff, inl, inr, Bool-cases, ◌↔◌}
use finsy.Prelude.Int.{pos, negsuc}
use finsy.Bits.{bit_and-ones, pow_pos, bit_length-ones, ones_of_bit_and-zero, bit_and_ones-zero}
use finsy.Values.Masks.{all_ones, mask_to_prefix, complement, and_int}

-- Clearing the low `k` bits.
pub and_int-not_ones : (n k : ℕ) → and_int n (negsuc (all_ones k)) ≡ n - n % 2 ^ k
unfolding and_int all_ones
and_int-not_ones n k = rw (bit_and-ones k n) refl

complement_lem : (value w : ℕ) → complement value w ≡ 2 ^ w - 1 - value % 2 ^ w
unfolding all_ones
complement_lem value w = rw (bit_and-ones w value) refl

-- The prefix mask of `p` bits, of `w`.
abbrev pub prefix_mask : ℕ → ℕ → ℕ
prefix_mask w p = 2 ^ w - 2 ^ (w - p)

-- A prefix mask gives its length back.
pub mask_to_prefix-prefix_mask :
    (value w p : ℕ) → p ≤ w → value % 2 ^ w ≡ prefix_mask w p → mask_to_prefix value w ≡ pos p
unfolding mask_to_prefix
mask_to_prefix-prefix_mask value w p h e =
    let low = pow-le-pow_right {n = 2} (omega arith) {i = w - p} {j = w} (omega arith) in
    let ones : complement value w ≡ 2 ^ (w - p) - 1 =
      omega (arith, complement_lem value w, pow_pos (w - p)) in
    rw (ones, bit_and_ones-zero (w - p), bit_length-ones (w - p)) (ap pos (omega arith))

pow-le_inv : (k w : ℕ) → 2 ^ k ≤ 2 ^ w → k ≤ w
pow-le_inv k w h = elim (dec_lt w k) [
  | yes over ↦
      let twice = pow-le-pow_right {n = 2} (omega arith) {i = suc w} {j = k} over in
      absurd (omega (arith, pow-suc 2 w, pow_pos w))
  | no fits ↦ omega arith
]

-- And whatever length is returned is that of a prefix mask.
prefix_mask_of_ones :
    (value w k p : ℕ)
    → complement value w + 1 ≡ 2 ^ k
    → mask_to_prefix value w ≡ pos p
    → (p ≤ w) × (value % 2 ^ w ≡ prefix_mask w p)
unfolding mask_to_prefix
prefix_mask_of_ones value w k p run e =
    let ones : complement value w ≡ 2 ^ k - 1 = omega arith in
    let fits = pow-le_inv k w (omega (arith, complement_lem value w, pow_pos w)) in
    let len : p ≡ w - k = ground (arith, rw (ones, bit_and_ones-zero k, bit_length-ones k) at e) in
    let back : w - p ≡ k = omega arith in
    (
      omega arith,
      omega (
        arith,
        complement_lem value w,
        ap (λ (t : ℕ). 2 ^ t) back,
        mod-lt value {m = 2 ^ w} (pow_pos w),
      ),
    )

pub prefix_mask_of_mask_to_prefix :
    (value w p : ℕ) → mask_to_prefix value w ≡ pos p → (p ≤ w) × (value % 2 ^ w ≡ prefix_mask w p)
unfolding mask_to_prefix
prefix_mask_of_mask_to_prefix value w p e =
    elim (Bool-cases (bit_and (complement value w) (complement value w + 1) == 0)) [
      | inl z ↦
          let (k, run) = ones_of_bit_and-zero (complement value w) ((==_iff _ _).0 z) in
          prefix_mask_of_ones value w k p run e
      | inr nz ↦ absurd (ground (arith, rw nz at e))
    ]

-- `mask_to_prefix` returns a length exactly for the mask of that length on the low bits of the
-- value; bits above the width are not looked at.
pub mask_to_prefix_iff :
    (value w p : ℕ)
    → (mask_to_prefix value w ≡ pos p) ↔ ((p ≤ w) × (value % 2 ^ w ≡ prefix_mask w p))
mask_to_prefix_iff value w p =
    (prefix_mask_of_mask_to_prefix value w p, λ h. mask_to_prefix-prefix_mask value w p h.0 h.1)
