-- ===== src/Values/Exact/Texts.antt =====
-- A number that is printed in hexadecimal is read back.
use finsy.Prelude.{ℕ, ◌<◌, ◌≡◌, refl, ap, sym, ◌∙◌, Bytes, Str, ok}
use finsy.Prelude.{arith}
use finsy.Prelude.Int.{pos}
use finsy.Text.Number.{hex}
use finsy.Text.Number.Print.{
  parse_int-hex, strip-hex, hex-lacks, IsOther-dot, IsOther-colon, IsOther-dash,
}
use finsy.Values.Exact.{
  ExactValue, str, default_format, with_string, exact_int, parse_stripped, encode_exact,
  decode_exact, present, format_exact, no_mask,
}
use finsy.Values.Exact.Laws.{encode_masked_fits, decode_exact-encode_exact}

parse_stripped-hex : (n w : ℕ) → parse_stripped (hex n) w ≡ ok (pos n)
unfolding parse_stripped
parse_stripped-hex n w =
    rw
      (
        (hex-lacks b'.' n IsOther-dot).0,
        (hex-lacks b':' n IsOther-colon).0,
        (hex-lacks b'-' n IsOther-dash).1,
        parse_int-hex n,
      )
      (ground arith)

-- At every width the text of a number is read as the number.
pub exact_int-hex : (n w : ℕ) → exact_int (str (hex n)) w ≡ ok (pos n)
unfolding exact_int
exact_int-hex n w = ap (λ s. parse_stripped s w) (strip-hex n) ∙ parse_stripped-hex n w

format_exact-default :
    (v : ExactValue) (w n : ℕ) {bs : Bytes}
    → encode_exact v w ≡ ok bs
    → decode_exact bs w (with_string default_format) ≡ ok (present n w (with_string default_format))
    → format_exact v w default_format ≡ ok (hex n)
unfolding format_exact present
format_exact-default v w n e d = rw (e, d) refl

-- On a width of at least one bit, a value that is encoded is formatted, in the default format, as a
-- text, and the text is encoded as the same bytes.
pub encode_exact-format_exact :
    (v : ExactValue) (w : ℕ) {bs : Bytes}
    → 0 < w
    → encode_exact v w ≡ ok bs
    → (t : Str) × (format_exact v w default_format ≡ ok t) × (encode_exact (str t) w ≡ ok bs)
encode_exact-format_exact v w {bs} pos_w e =
    let (n, is_n, fits, d) = decode_exact-encode_exact v w (with_string default_format) pos_w e in
    (
      hex n,
      format_exact-default v w n e d,
      encode_masked_fits (str (hex n)) w n no_mask pos_w (exact_int-hex n w) fits
          ∙ sym (encode_masked_fits v w n no_mask pos_w is_n fits)
          ∙ e,
    )
