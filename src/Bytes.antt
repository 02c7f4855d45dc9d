-- ===== src/Bytes.antt =====
-- Python's `int.to_bytes`, `int.from_bytes` (big-endian) and `bytes.lstrip`, with their laws.
-- A byte string is a list of numbers below 256, lowest digit last.
pub mod Laws
pub mod Signed
use finsy.Prelude.{ℕ, zero, suc, ◌+◌, ◌-◌, ◌*◌, ◌/◌, ◌%◌, ◌^◌, ◌<◌, Bool, true, false}
use finsy.Prelude.{List, [], ◌∷◌, ◌++◌, Bytes, length, ltb, leb, ◌==◌, if◌then◌else◌}
use finsy.Prelude.{Result, ok, err, overflow_error}
use finsy.Prelude.Int.{ℤ, pos, negsuc}

abbrev pub IsByte : ℕ → Type 0
IsByte b = b < 256

-- The low `size` bytes of `n`.
unfoldable pub be_bytes : ℕ → ℕ → Bytes
be_bytes zero n = []
be_bytes (suc size) n = be_bytes size (n / 256) ++ (n % 256 ∷ [])

-- int.from_bytes(b, "big"), from the bytes read so far
unfoldable pub from_bytes_after : ℕ → Bytes → ℕ
from_bytes_after acc [] = acc
from_bytes_after acc (b ∷ bs) = from_bytes_after (acc * 256 + b) bs

abbrev pub from_bytes : Bytes → ℕ
from_bytes = from_bytes_after 0

-- value.to_bytes(size, "big")
unfoldable pub to_bytes : ℕ → ℤ → Result Bytes
to_bytes size (pos n) = if ltb n (256 ^ size) then ok (be_bytes size n) else err overflow_error
to_bytes size (negsuc n) = err overflow_error

-- value.lstrip(c), for one byte `c`
unfoldable pub lstrip : ℕ → Bytes → Bytes
lstrip c [] = []
lstrip c (b ∷ bs) = if b == c then lstrip c bs else b ∷ bs

-- value.to_bytes(size, "big", signed=True): two's complement
unfoldable pub to_bytes_signed : ℕ → ℤ → Result Bytes
to_bytes_signed size (pos n) =
    if ltb (n * 2) (256 ^ size) then ok (be_bytes size n) else err overflow_error
to_bytes_signed size (negsuc n) =
    if ltb (n * 2) (256 ^ size) then ok (be_bytes size (256 ^ size - suc n)) else err overflow_error

-- The top bit of the first byte.
unfoldable pub is_negative : Bytes → Bool
is_negative [] = false
is_negative (b ∷ bs) = leb 128 b

-- int.from_bytes(b, "big", signed=True)
unfoldable pub from_bytes_signed : Bytes → ℤ
unfolding is_negative
from_bytes_signed bs =
    if is_negative bs then negsuc (256 ^ length bs - from_bytes bs - 1) else pos (from_bytes bs)
