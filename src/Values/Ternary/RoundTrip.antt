-- ===== src/Values/Ternary/RoundTrip.antt =====
-- A ternary value of numbers is written as a text and parsed back to the same bytes.
use finsy.Prelude.{ℕ, ◌-◌, ◌%◌, ◌^◌, ◌<◌, ◌≡◌, refl, ap, sym, ◌∙◌, arith, Bytes, Str, ok, ◌==◌}
use finsy.Prelude.{inl, inr, Bool-cases, ==_iff, if◌then◌else◌}
use finsy.Prelude.Int.{ℤ, pos, negsuc}
use native.Mathlib.Nat.{mod-eq_of_lt}
use finsy.Text.Number.{hex}
use finsy.Values.Masks.{mask_to_prefix}
use finsy.Values.Masks.Laws.{prefix_mask, prefix_mask_of_mask_to_prefix}
use finsy.Values.Exact.{
  int, str, DecodeFormat, default_format, with_string, present, decode_exact, as_text,
}
use finsy.Values.Exact.Laws.{shortest, decode_exact-shortest, from_bytes-shortest}
use finsy.Values.Lpm.Laws.{cleared}
use finsy.Values.Ternary.{
  exact, pair, encode_pair, decode_pair, encode_ternary, decode_ternary, parse_ternary_str,
  prefix_text,
}
use finsy.Values.Ternary.Texts.{
  amp_text, slash_text, parse_amp, parse_slash, parse_plain, exact_number,
}

abbrev pub text_format : DecodeFormat
text_format = with_string default_format

shortest-text :
    (w n : ℕ) → 0 < w → n < 2 ^ w → decode_exact (shortest w n) w text_format ≡ ok (str (hex n))
unfolding present
shortest-text w n h fits = decode_exact-shortest w n text_format h fits

-- What is written of a value and a mask.
written : ℤ → ℕ → ℕ → ℕ → Str
written (pos p) n m w = if p == w then hex n else slash_text n p
written (negsuc k) n m w = amp_text n m

decode_ternary-written :
    (n m w : ℕ)
    → 0 < w
    → n < 2 ^ w
    → m < 2 ^ w
    → decode_ternary (shortest w n) (shortest w m) w text_format
      ≡ ok (exact (str (written (mask_to_prefix m w) n m w)))
unfolding decode_ternary
decode_ternary-written n m w h fn fm =
    rw (from_bytes-shortest w m fm) (by_prefix (mask_to_prefix m w))
  where
    by_prefix :
        (z : ℤ)
        → prefix_text z (shortest w n) (shortest w m) w text_format
          ≡ ok (exact (str (written z n m w)))
    by_prefix (pos p) =
        unfold written slash_text as_text in
        rw (shortest-text w n h fn)
          (elim (Bool-cases (p == w)) [ inl e ↦ rw e refl | inr e ↦ rw e refl ])
    by_prefix (negsuc k) =
        unfold written amp_text decode_pair as_text in
        rw (shortest-text w n h fn, shortest-text w m h fm) refl

-- Bits of the value below the prefix of its mask are clear.
abbrev pub IsMasked : ℕ → ℕ → ℕ → Type 0
IsMasked n m w = (p : ℕ) → mask_to_prefix m w ≡ pos p → n % 2 ^ (w - p) ≡ 0

parse-written :
    (n m w : ℕ) (z : ℤ)
    → 0 < w
    → n < 2 ^ w
    → m < 2 ^ w
    → mask_to_prefix m w ≡ z
    → IsMasked n m w
    → parse_ternary_str (written z n m w) w ≡ ok (shortest w n, shortest w m)
unfolding written
parse-written n m w (negsuc k) h fn fm e clear = parse_amp n m w h fn fm
parse-written n m w (pos p) h fn fm e clear =
    let (le, mask) = prefix_mask_of_mask_to_prefix m w p e in
    let own : prefix_mask w p ≡ m = sym mask ∙ mod-eq_of_lt fm in
    elim (Bool-cases (p == w)) [
      | inl whole ↦
          let same : p ≡ w = (==_iff _ _).0 whole in
          let full : prefix_mask w w ≡ m = ap (prefix_mask w) (sym same) ∙ own in
          rw whole (parse_plain n w h fn ∙ ap (λ (k : ℕ). ok (shortest w n, shortest w k)) full)
      | inr part ↦
          let kept : cleared n w p ≡ n = omega (arith, clear p e) in
          rw part (
            parse_slash n p w h fn le
            ∙ ap (λ (k : ℕ). ok (shortest w k, shortest w (prefix_mask w p))) kept
            ∙ ap (λ (k : ℕ). ok (shortest w n, shortest w k)) own)
    ]

-- On a width of at least one bit: a value and a mask that fit the width, where a mask that is a
-- prefix leaves no bit of the value below it, are encoded and decoded as a text, and the text
-- is encoded as the same bytes.
pub ternary_text_round_trip :
    (n m w : ℕ)
    → 0 < w
    → n < 2 ^ w
    → m < 2 ^ w
    → IsMasked n m w
    → (x y : Bytes) × (t : Str) × (encode_ternary (pair (int (pos n)) (int (pos m))) w ≡ ok (x, y))
      × (decode_ternary x y w text_format ≡ ok (exact (str t)))
      × (encode_ternary (exact (str t)) w ≡ ok (x, y))
unfolding encode_ternary
ternary_text_round_trip n m w h fn fm clear = (
  shortest w n,
  shortest w m,
  written (mask_to_prefix m w) n m w,
  unfold encode_pair in rw (exact_number n w h fn, exact_number m w h fm) refl,
  decode_ternary-written n m w h fn fm,
  parse-written n m w (mask_to_prefix m w) h fn fm refl clear,
)
