-- ===== src/Values/Signed/Laws.antt =====
-- Signed values are read back over the whole range of the width, and nothing else is encoded.
use native.Mathlib.Nat.{pow-suc}
use finsy.Prelude.{ℕ, suc, ◌+◌, ◌*◌, ◌/◌, ◌^◌, ◌≤◌, ◌<◌, ◌≡◌, refl, ◌∙◌}
use finsy.Prelude.{arith, [], ◌∷◌, Bytes, All, length, ok, err, value_error}
use finsy.Prelude.{◌>>=◌, lt→ltb, ne→==_false}
use finsy.Prelude.Int.{ℤ, pos, negsuc}
use finsy.Bytes.{IsByte, be_bytes, to_bytes_signed, from_bytes_signed}
use finsy.Bytes.Laws.{be_bytes-IsByte, length-be_bytes, pow-le-bytes}
use finsy.Bytes.Signed.{from_bytes_signed-to_bytes_signed, to_bytes_signed_total}
use finsy.Values.Masks.{p4r_truncate_signed, p4r_minimum_string_size}
use finsy.Values.Masks.Truncate.{from_bytes_signed-p4r_truncate_signed}
use finsy.Values.Exact.{
  int, default_format, encode_exact, encode_masked, encode_number, exact_int, apply_mask,
  decode_exact, decode_number, present,
}
use finsy.Values.Signed.{encode_signed, decode_signed, encode_enum, decode_enum}

-- Truncated bytes of a number of at least one byte.
truncated :
    (size m : ℕ)
    → (s : Bytes) × (p4r_truncate_signed (be_bytes (suc size) m) ≡ ok s)
      × (from_bytes_signed s ≡ from_bytes_signed (be_bytes (suc size) m))
truncated size m =
    go (be_bytes (suc size) m) (be_bytes-IsByte (suc size) m) (length-be_bytes (suc size) m)
  where
    go :
        (bs : Bytes)
        → All IsByte bs
        → length bs ≡ suc size
        → (s : Bytes) × (p4r_truncate_signed bs ≡ ok s)
          × (from_bytes_signed s ≡ from_bytes_signed bs)
    go [] h l = absurd (omega arith)
    go (b ∷ bs) h l = from_bytes_signed-p4r_truncate_signed b bs h

-- `v`, whose bytes are those of `m`, is encoded and read back.
encode_bytes :
    (size m : ℕ) (v : ℤ)
    → to_bytes_signed (suc size) v ≡ ok (be_bytes (suc size) m)
    → (s : Bytes) × ((to_bytes_signed (suc size) v >>= p4r_truncate_signed) ≡ ok s)
      × (from_bytes_signed s ≡ v)
encode_bytes size m v e =
    let (s, done, same) = truncated size m in
    (s, rw e done, same ∙ from_bytes_signed-to_bytes_signed size v e)

size_of : (w : ℕ) → p4r_minimum_string_size (suc w) ≡ ok (suc (w / 8))
unfolding p4r_minimum_string_size
size_of w =
    let same : (suc w + 7) / 8 ≡ suc (w / 8) = omega arith in
    rw (ne→==_false (suc w) (omega arith), same) refl

encode_signed_steps :
    (w n : ℕ)
    → n < 2 ^ w
    → (encode_signed (pos n) (suc w)
        ≡ (to_bytes_signed (suc (w / 8)) (pos n) >>= p4r_truncate_signed))
      × (encode_signed (negsuc n) (suc w)
          ≡ (to_bytes_signed (suc (w / 8)) (negsuc n) >>= p4r_truncate_signed))
unfolding encode_signed
encode_signed_steps w n h =
    (rw (lt→ltb n (2 ^ w) h, size_of w) refl, rw (lt→ltb n (2 ^ w) h, size_of w) refl)

-- The bytes have room for the sign.
signed_room : (w n : ℕ) → n < 2 ^ w → n * 2 < 256 ^ suc (w / 8)
signed_room w n h =
    let same : (suc w + 7) / 8 ≡ suc (w / 8) = omega arith in
    omega (arith, rw same at (pow-le-bytes (suc w)), pow-suc 2 w)

-- On `w + 1` bits both `n` and `~n`, for `n` below `2 ^ w`, are encoded, and decoding gives them back.
pub decode_signed-encode_signed :
    (w n : ℕ)
    → n < 2 ^ w
    → ((s : Bytes) × (encode_signed (pos n) (suc w) ≡ ok s) × (decode_signed s (suc w) ≡ pos n))
      × ((s : Bytes) × (encode_signed (negsuc n) (suc w) ≡ ok s)
          × (decode_signed s (suc w) ≡ negsuc n))
unfolding decode_signed
decode_signed-encode_signed w n h =
    let (plain, flipped) = to_bytes_signed_total (suc (w / 8)) n (signed_room w n h) in
    let (steps, steps') = encode_signed_steps w n h in
    let (s, done, same) = encode_bytes (w / 8) _ (pos n) plain in
    let (s', done', same') = encode_bytes (w / 8) _ (negsuc n) flipped in
    ((s, steps ∙ done, same), (s', steps' ∙ done', same'))

-- On `w + 1` bits `n` and `~n`, for `n` at least `2 ^ w`, are ValueErrors.
pub encode_signed_refused :
    (w n : ℕ)
    → 2 ^ w ≤ n
    → (encode_signed (pos n) (suc w) ≡ err value_error)
      × (encode_signed (negsuc n) (suc w) ≡ err value_error)
unfolding encode_signed
encode_signed_refused w n h = ground arith

encode_enum_lem : (v : ℤ) (w : ℕ) → 0 < w → encode_enum v w ≡ encode_exact (int v) w
unfolding encode_enum encode_masked encode_number exact_int apply_mask
encode_enum_lem v w h = rw (ne→==_false w h) refl

decode_enum_lem :
    (bs : Bytes) (w : ℕ)
    → 0 < w
    → decode_exact bs w default_format ≡ (decode_enum bs w >>= λ n. ok (int (pos n)))
unfolding decode_enum decode_exact decode_number present
decode_enum_lem [] w h = rw (ne→==_false w h) refl
decode_enum_lem (b ∷ bs) w h = rw (ne→==_false w h) refl

-- On a width of at least one bit the codec of enum members is the exact codec of numbers.
pub enum_codec_exact :
    (v : ℤ) (bs : Bytes) (w : ℕ)
    → 0 < w
    → (encode_enum v w ≡ encode_exact (int v) w)
      × (decode_exact bs w default_format ≡ (decode_enum bs w >>= λ n. ok (int (pos n))))
enum_codec_exact v bs w h = (encode_enum_lem v w h, decode_enum_lem bs w h)
