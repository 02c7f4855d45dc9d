-- ===== src/Bytes/Laws.antt =====
-- Round trips and the shortest form of unsigned big-endian numbers.
use native.Mathlib.Nat.{pow-suc, pow-le-pow_right, mul-le-mul_right, zero-add, suc-add}
use finsy.Prelude.{ℕ, zero, suc, ◌+◌, ◌*◌, ◌/◌, ◌%◌, ◌^◌, ◌≤◌, ◌<◌, ◌≡◌, refl, ap, sym, ◌∙◌}
use finsy.Prelude.{[], ◌∷◌, ◌++◌, Bytes, length, length-append, All, All-append, arith}
use finsy.Prelude.{inl, inr, Bool-cases, ◌==◌}
use finsy.Bytes.{IsByte, be_bytes, from_bytes, from_bytes_after, lstrip}

pub length-be_bytes : (size n : ℕ) → length (be_bytes size n) ≡ size
unfolding be_bytes
length-be_bytes zero n = refl
length-be_bytes (suc size) n =
    omega (
      arith,
      length-append (be_bytes size (n / 256)) (n % 256 ∷ []),
      length-be_bytes size (n / 256),
    )

pub be_bytes-IsByte : (size n : ℕ) → All IsByte (be_bytes size n)
unfolding be_bytes
be_bytes-IsByte zero n = tt
be_bytes-IsByte (suc size) n =
    All-append IsByte (be_bytes size (n / 256)) _ (be_bytes-IsByte size (n / 256)) (omega arith, tt)

pub from_bytes_after-append :
    (acc : ℕ) (xs ys : Bytes)
    → from_bytes_after acc (xs ++ ys) ≡ from_bytes_after (from_bytes_after acc xs) ys
unfolding from_bytes_after
from_bytes_after-append acc [] ys = refl
from_bytes_after-append acc (x ∷ xs) ys = from_bytes_after-append (acc * 256 + x) xs ys

-- Writing and reading back.
pub from_bytes-be_bytes : (size n : ℕ) → n < 256 ^ size → from_bytes (be_bytes size n) ≡ n
unfolding be_bytes from_bytes_after
from_bytes-be_bytes zero n h = omega arith
from_bytes-be_bytes (suc size) n h =
    let low = from_bytes-be_bytes size (n / 256) (omega (arith, pow-suc 256 size)) in
    rw (from_bytes_after-append 0 (be_bytes size (n / 256)) (n % 256 ∷ []), low) (omega arith)

pub from_bytes_after_bound :
    (acc : ℕ) (bs : Bytes) → All IsByte bs → from_bytes_after acc bs < (acc + 1) * 256 ^ length bs
unfolding from_bytes_after
from_bytes_after_bound acc [] h = omega arith
from_bytes_after_bound acc (b ∷ bs) (p, h) =
    let room : acc * 256 + b + 1 ≤ (acc + 1) * 256 = omega arith in
    omega (
      arith,
      from_bytes_after_bound (acc * 256 + b) bs h,
      mul-le-mul_right (256 ^ length bs) room,
      ap (λ (t : ℕ). (acc + 1) * t) (pow-suc 256 (length bs)),
    )

pub from_bytes-lt : (bs : Bytes) → All IsByte bs → from_bytes bs < 256 ^ length bs
from_bytes-lt bs h = omega (arith, from_bytes_after_bound 0 bs h)

-- Reading and writing back.
-- Equal numbers of the same width have the same bytes.
from_bytes_after-injective :
    (xs ys : Bytes) (a b : ℕ)
    → All IsByte xs
    → All IsByte ys
    → length xs ≡ length ys
    → from_bytes_after a xs ≡ from_bytes_after b ys
    → (a ≡ b) × (xs ≡ ys)
unfolding from_bytes_after
from_bytes_after-injective [] [] a b h k l e = (e, refl)
from_bytes_after-injective [] (y ∷ ys) a b h k l e = absurd (omega arith)
from_bytes_after-injective (x ∷ xs) [] a b h k l e = absurd (omega arith)
from_bytes_after-injective (x ∷ xs) (y ∷ ys) a b (p, h) (q, k) l e =
    let (same, rest) =
      from_bytes_after-injective xs ys (a * 256 + x) (b * 256 + y) h k (omega arith) e in
    let head : x ≡ y = omega arith in (omega arith, cc)

-- Reading and writing back.
pub be_bytes-from_bytes : (bs : Bytes) → All IsByte bs → be_bytes (length bs) (from_bytes bs) ≡ bs
be_bytes-from_bytes bs h =
    (from_bytes_after-injective (be_bytes (length bs) (from_bytes bs)) bs 0 0
      (be_bytes-IsByte (length bs) (from_bytes bs)) h (length-be_bytes (length bs) (from_bytes bs))
      (from_bytes-be_bytes (length bs) (from_bytes bs) (from_bytes-lt bs h))).1

pub lstrip-from_bytes : (bs : Bytes) → from_bytes (lstrip 0 bs) ≡ from_bytes bs
unfolding lstrip from_bytes_after
lstrip-from_bytes [] = refl
lstrip-from_bytes (b ∷ bs) = ground (arith, lstrip-from_bytes bs)

-- A byte more than is needed is a leading zero.
be_bytes-suc : (size n : ℕ) → n < 256 ^ size → be_bytes (suc size) n ≡ 0 ∷ be_bytes size n
unfolding be_bytes
be_bytes-suc zero n h = let z : n ≡ 0 = omega arith in rw z
be_bytes-suc (suc size) n h =
    ap (λ bs. bs ++ (n % 256 ∷ [])) (be_bytes-suc size (n / 256) (omega (arith, pow-suc 256 size)))

-- The shortest form does not depend on the width.
pub lstrip-be_bytes :
    (d size n : ℕ) → n < 256 ^ size → lstrip 0 (be_bytes (d + size) n) ≡ lstrip 0 (be_bytes size n)
unfolding lstrip
lstrip-be_bytes zero size n h = rw zero-add
lstrip-be_bytes (suc d) size n h =
    let wide : n < 256 ^ (d + size) =
      omega
        (arith, pow-le-pow_right {n = 256} (omega arith) {i = size} {j = d + size} (omega arith)) in
    rw (suc-add, be_bytes-suc (d + size) n wide) (lstrip-be_bytes d size n h)

-- So the shortest form of a byte string is the shortest form of its number, at any width.
pub lstrip-canonical :
    (bs : Bytes) (size : ℕ)
    → All IsByte bs
    → from_bytes bs < 256 ^ size
    → lstrip 0 (be_bytes size (from_bytes bs)) ≡ lstrip 0 bs
lstrip-canonical bs size h fits =
    let wide = lstrip-be_bytes (length bs) size (from_bytes bs) fits in
    let own = lstrip-be_bytes size (length bs) (from_bytes bs) (from_bytes-lt bs h) in
    sym wide
    ∙ ap (λ (k : ℕ). lstrip 0 (be_bytes k (from_bytes bs))) (omega arith)
    ∙ own
    ∙ ap (lstrip 0) (be_bytes-from_bytes bs h)

pub lstrip-IsByte : (c : ℕ) (bs : Bytes) → All IsByte bs → All IsByte (lstrip c bs)
unfolding lstrip
lstrip-IsByte c [] h = tt
lstrip-IsByte c (b ∷ bs) (p, h) = elim (Bool-cases (b == c)) [
  | inl e ↦ rw e (lstrip-IsByte c bs h)
  | inr e ↦ rw e (p, h)
]

-- The number so far counts from the top of the bytes that follow.
pub from_bytes_after_split :
    (acc : ℕ) (bs : Bytes) → from_bytes_after acc bs ≡ acc * 256 ^ length bs + from_bytes bs
unfolding from_bytes_after
from_bytes_after_split acc [] = omega arith
from_bytes_after_split acc (b ∷ bs) =
    let step = pow-suc 256 (length bs) in
    omega (
      arith,
      from_bytes_after_split (acc * 256 + b) bs,
      from_bytes_after_split (0 * 256 + b) bs,
      ap (λ (t : ℕ). acc * t) step,
    )

-- A number is at most as wide as its bits: 2 ^ w fits (w + 7) / 8 bytes.
pub pow-256 : (s : ℕ) → 256 ^ s ≡ 2 ^ (8 * s)
pow-256 zero = refl
pow-256 (suc s) =
    let shift : 8 * suc s ≡ suc (suc (suc (suc (suc (suc (suc (suc (8 * s)))))))) = omega arith in
    rw shift (omega (arith, pow-256 s, pow-suc 256 s))

pub pow-le-bytes : (w : ℕ) → 2 ^ w ≤ 256 ^ ((w + 7) / 8)
pow-le-bytes w =
    rw pow-256
      (pow-le-pow_right {n = 2} (omega arith) {i = w} {j = 8 * ((w + 7) / 8)} (omega arith))
