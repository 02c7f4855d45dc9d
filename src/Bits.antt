-- ===== src/Bits.antt =====
-- Python's `&` and `bit_length` on natural numbers, with the laws of masks.
use Prim.Native.Nat.{digits, bit_and-bitwise}
use native.Mathlib.Nat.{zero-add, suc-add, pow-suc, one-le-pow, div-add-mod, mod-lt}
use finsy.Prelude.{ℕ, zero, suc, ◌+◌, ◌-◌, ◌*◌, ◌/◌, ◌%◌, ◌^◌, ◌≤◌, ◌<◌, min, bit_and, arith}
use native.Mathlib.Decide.{dec_lt}
use finsy.Prelude.{◌≡◌, refl, ap, ◌∙◌}

-- The conjunction of the low `n` digits, which the native operation stands for.
abbrev low_and : ℕ → ℕ → ℕ → ℕ
low_and n a b = digits (λ _. zero) min n a b

-- More digits than the number has change nothing.
low_and_stable : (n m a b : ℕ) → a ≤ n → n ≤ m → low_and m a b ≡ low_and n a b
low_and_stable zero zero a b p q = refl
low_and_stable zero (suc m) zero b p q = refl
low_and_stable zero (suc m) (suc a) b p q = absurd (omega arith)
low_and_stable (suc n) zero a b p q = absurd (omega arith)
low_and_stable (suc n) (suc m) zero b p q = refl
low_and_stable (suc n) (suc m) (suc a) b p q =
    let half = low_and_stable n m (suc a / 2) (b / 2) (omega arith) (omega arith) in omega arith

bit_and-zero_left : (b : ℕ) → bit_and 0 b ≡ 0
bit_and-zero_left b = bit_and-bitwise 0 b

-- The lowest digit apart from the others.
pub bit_and-halves : (a b : ℕ) → bit_and a b ≡ bit_and (a / 2) (b / 2) * 2 + min (a % 2) (b % 2)
bit_and-halves zero b = omega (arith, bit_and-zero_left b, bit_and-zero_left (b / 2))
bit_and-halves (suc a) b =
    let whole = bit_and-bitwise (suc a) b in
    let half = bit_and-bitwise (suc a / 2) (b / 2) in
    let same = low_and_stable (suc a / 2) a (suc a / 2) (b / 2) (omega arith) (omega arith) in
    omega arith

-- Division with remainder is unique.
pub mod_unique : (a m q r : ℕ) → a ≡ m * q + r → r < m → a % m ≡ r
mod_unique a m q r e h = grind (arith, div-add-mod a m, mod-lt a)

pub pow_pos : (k : ℕ) → 1 ≤ 2 ^ k
pow_pos k = one-le-pow k 2 (omega arith)

pub mod_halves : (a k : ℕ) → a % 2 ^ suc k ≡ a / 2 % 2 ^ k * 2 + a % 2
mod_halves a k =
    mod_unique a (2 ^ suc k) (a / 2 / 2 ^ k) _
      (omega
        (arith, ap (λ (t : ℕ). t * (a / 2 / 2 ^ k)) (pow-suc 2 k), div-add-mod (a / 2) (2 ^ k)))
      (omega (arith, pow-suc 2 k, pow_pos k, mod-lt (a / 2) {m = 2 ^ k} (pow_pos k)))

bit_and-zero : (n a : ℕ) → a ≤ n → bit_and a 0 ≡ 0
bit_and-zero n zero h = refl
bit_and-zero zero (suc a) h = absurd (omega arith)
bit_and-zero (suc n) (suc a) h =
    omega (arith, bit_and-halves (suc a) 0, bit_and-zero n (suc a / 2) (omega arith))

-- A mask of `k` ones keeps the remainder by `2 ^ k`.
pub bit_and-ones : (k a : ℕ) → bit_and a (2 ^ k - 1) ≡ a % 2 ^ k
bit_and-ones zero a = omega (arith, bit_and-zero a a (omega arith))
bit_and-ones (suc k) a =
    let low = bit_and-ones k (a / 2) in
    let tail : (2 ^ suc k - 1) / 2 ≡ 2 ^ k - 1 = omega (arith, pow_pos k) in
    omega (
      arith,
      bit_and-halves a (2 ^ suc k - 1),
      ap (bit_and (a / 2)) tail,
      low,
      mod_halves a k,
      pow_pos k,
      pow-suc 2 k,
    )

bit_and_self : (n m : ℕ) → m ≤ n → bit_and m m ≡ m
bit_and_self zero zero h = refl
bit_and_self zero (suc m) h = absurd (omega arith)
bit_and_self (suc n) zero h = refl
bit_and_self (suc n) (suc m) h =
    omega (arith, bit_and-halves (suc m) (suc m), bit_and_self n (suc m / 2) (omega arith))

-- int.bit_length, by halving; the number itself bounds the halvings.
bit_length_within : ℕ → ℕ → ℕ
bit_length_within fuel zero = 0
bit_length_within zero (suc n) = 0
bit_length_within (suc fuel) (suc n) = suc (bit_length_within fuel (suc n / 2))

unfoldable pub bit_length : ℕ → ℕ
unfolding bit_length_within
bit_length n = bit_length_within n n

bit_length_within-ones : (fuel k : ℕ) → k ≤ fuel → bit_length_within fuel (2 ^ k - 1) ≡ k
unfolding bit_length_within
bit_length_within-ones fuel zero h = refl
bit_length_within-ones zero (suc k) h = absurd (omega arith)
bit_length_within-ones (suc fuel) (suc k) h =
    let one_more : 2 ^ suc k - 1 ≡ suc (2 ^ k * 2 - 2) = omega (arith, pow_pos k) in
    let tail : suc (2 ^ k * 2 - 2) / 2 ≡ 2 ^ k - 1 = omega (arith, pow_pos k) in
    rw (one_more, tail, bit_length_within-ones fuel k (omega arith))

lt-pow : (k : ℕ) → k < 2 ^ k
lt-pow zero = omega arith
lt-pow (suc k) = omega (arith, lt-pow k, pow-suc 2 k)

pub bit_length-ones : (k : ℕ) → bit_length (2 ^ k - 1) ≡ k
unfolding bit_length
bit_length-ones k = bit_length_within-ones _ k (omega (arith, lt-pow k))

-- `m & (m + 1)` is 0 for a run of ones alone.
run_of_ones : (n m : ℕ) → m ≤ n → bit_and m (m + 1) ≡ 0 → (k : ℕ) × (m + 1 ≡ 2 ^ k)
run_of_ones n zero h e = (0, refl)
run_of_ones zero (suc m) h e = absurd (omega arith)
run_of_ones (suc n) (suc m) h e =
    let step = bit_and-halves (suc m) (suc m + 1) in
    elim (dec_lt 0 (suc m % 2)) [
      | yes odd ↦
          let up : (suc m + 1) / 2 ≡ suc m / 2 + 1 = omega arith in
          let (k, p) =
            run_of_ones n (suc m / 2) (omega arith) (omega (arith, ap (bit_and (suc m / 2)) up)) in
          (suc k, omega (arith, pow-suc 2 k))
      | no even ↦
          let same : (suc m + 1) / 2 ≡ suc m / 2 = omega arith in
          absurd (
            omega (
              arith,
              ap (bit_and (suc m / 2)) same,
              bit_and_self (suc m / 2) (suc m / 2) (omega arith),
            ))
    ]

pub ones_of_bit_and-zero : (m : ℕ) → bit_and m (m + 1) ≡ 0 → (k : ℕ) × (m + 1 ≡ 2 ^ k)
ones_of_bit_and-zero m e = run_of_ones m m (omega arith) e

pub bit_and_ones-zero : (k : ℕ) → bit_and (2 ^ k - 1) (2 ^ k - 1 + 1) ≡ 0
bit_and_ones-zero zero = refl
bit_and_ones-zero (suc k) =
    let low : (2 ^ suc k - 1) / 2 ≡ 2 ^ k - 1 = omega (arith, pow_pos k, pow-suc 2 k) in
    let high : (2 ^ suc k - 1 + 1) / 2 ≡ 2 ^ k - 1 + 1 = omega (arith, pow_pos k, pow-suc 2 k) in
    let step = bit_and-halves (2 ^ suc k - 1) (2 ^ suc k - 1 + 1) in
    omega (arith, rw (low, high) at step, bit_and_ones-zero k, pow_pos k, pow-suc 2 k)

bit_and-le_within : (n a b : ℕ) → a ≤ n → bit_and a b ≤ a
bit_and-le_within n zero b h = omega (arith, bit_and-zero_left b)
bit_and-le_within zero (suc a) b h = absurd (omega arith)
bit_and-le_within (suc n) (suc a) b h =
    omega (arith, bit_and-halves (suc a) b, bit_and-le_within n (suc a / 2) (b / 2) (omega arith))

pub bit_and-le_left : (a b : ℕ) → bit_and a b ≤ a
bit_and-le_left a b = bit_and-le_within a a b (omega arith)

pow_add : (p d : ℕ) → 2 ^ p * 2 ^ d ≡ 2 ^ (p + d)
pow_add zero d = rw zero-add (omega arith)
pow_add (suc p) d =
    rw (suc-add p d)
      (omega (arith, pow_add p d, pow-suc 2 (p + d), ap (λ (t : ℕ). t * 2 ^ d) (pow-suc 2 p)))

pub pow_split : (p w : ℕ) → p ≤ w → 2 ^ p * 2 ^ (w - p) ≡ 2 ^ w
pow_split p w h = pow_add p (w - p) ∙ ap (λ (k : ℕ). 2 ^ k) (omega arith)
