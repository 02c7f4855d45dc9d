-- ===== src/Values/Ternary/Texts.antt =====
-- The texts of ternary values: what is printed is parsed to the same bytes.
use native.Mathlib.Nat.{mul-sub, mul_comm}
use finsy.Values.Ternary.Laws.{exact_shortest}
use finsy.Prelude.{ℕ, ◌-◌, ◌*◌, ◌^◌, ◌≤◌, ◌<◌, ◌≡◌, refl, ap, ◌∙◌}
use finsy.Prelude.{arith, [], ◌∷◌, ◌++◌, Str, Bytes, codes, ok, some, none}
use finsy.Prelude.{false}
use finsy.Prelude.Int.{pos}
use finsy.Bits.{pow_split, pow_pos}
use mathlib.Core.List.{append-nil}
use finsy.Text.{contains, split_once, remove_prefix?}
use finsy.Text.Laws.{split_once-append, split_once-none, after_front}
use finsy.Text.Number.{hex, decimal}
use finsy.Text.Number.Print.{
  hex-lacks, parse_int-decimal, decimal-lacks, IsOther-slash, IsOther-dot, IsOther-colon,
  IsOther-dash, IsOther-amp,
}
use finsy.Values.Masks.{all_ones}
use finsy.Values.Masks.Laws.{prefix_mask}
use finsy.Values.Exact.{int, str, exact_int, encode_exact}
use finsy.Values.Exact.Laws.{shortest}
use finsy.Values.Exact.Texts.{exact_int-hex}
use finsy.Values.Lpm.{parse_lpm_prefix, parse_lpm_str}
use finsy.Values.Lpm.Laws.{encode_prefixed_fits, cleared}
use finsy.Values.Ternary.{encode_pair, parse_ternary_str, prefix_form}

-- The texts that `decode_ternary` writes of a value and a mask, or of a value and a prefix.
unfoldable pub amp_text : ℕ → ℕ → Str
amp_text n m = hex n ++ (codes "/&" ++ hex m)

unfoldable pub slash_text : ℕ → ℕ → Str
slash_text n p = hex n ++ (codes "/" ++ decimal p)

split_amp : (n m : ℕ) → split_once (codes "/&") (amp_text n m) ≡ some (hex n, hex m)
unfolding amp_text split_once remove_prefix?
split_amp n m =
    split_once-append b'/' (codes "&") (hex n) _ (hex-lacks b'/' n IsOther-slash).0
    ∙ ap (λ s. some (s, hex m)) (append-nil (hex n))

split_slash : (n p : ℕ) → split_once (codes "/") (slash_text n p) ≡ some (hex n, decimal p)
unfolding slash_text split_once remove_prefix?
split_slash n p =
    split_once-append b'/' [] (hex n) _ (hex-lacks b'/' n IsOther-slash).0
    ∙ ap (λ s. some (s, decimal p)) (append-nil (hex n))

no_amp : (s : Str) → contains b'&' s ≡ false → remove_prefix? (codes "&") s ≡ none
unfolding contains remove_prefix?
no_amp [] h = refl
no_amp (c ∷ s) h = ground arith

split_slash_amp : (n p : ℕ) → split_once (codes "/&") (slash_text n p) ≡ none
unfolding slash_text
split_slash_amp n p =
    let first = no_amp (decimal p) (decimal-lacks b'&' p IsOther-amp).0 in
    let later =
      split_once-none b'/' (codes "&") (decimal p) (decimal-lacks b'/' p IsOther-slash).0 in
    split_once-append b'/' (codes "&") (hex n) _ (hex-lacks b'/' n IsOther-slash).0
    ∙ ap (after_front (hex n)) (slash_step (decimal p) first later)
  where
    slash_step :
        (s : Str)
        → remove_prefix? (codes "&") s ≡ none
        → split_once (codes "/&") s ≡ none
        → split_once (codes "/&") (b'/' ∷ s) ≡ none
    slash_step s e h = unfold split_once remove_prefix? in rw (e, h) refl

parse_lpm_prefix-decimal : (p w : ℕ) → parse_lpm_prefix (decimal p) w ≡ ok (pos p)
unfolding parse_lpm_prefix
parse_lpm_prefix-decimal p w =
    rw
      (
        (decimal-lacks b'.' p IsOther-dot).0,
        (decimal-lacks b':' p IsOther-colon).0,
        (decimal-lacks b'-' p IsOther-dash).1,
        parse_int-decimal p,
      )
      (ground arith)

exact_hex : (n w : ℕ) → 0 < w → n < 2 ^ w → encode_exact (str (hex n)) w ≡ ok (shortest w n)
exact_hex n w h fits = exact_shortest (str (hex n)) w n h (exact_int-hex n w) fits

pub exact_number : (n w : ℕ) → 0 < w → n < 2 ^ w → encode_exact (int (pos n)) w ≡ ok (shortest w n)
exact_number n w h fits = exact_shortest (int (pos n)) w n h (unfold exact_int in refl) fits

pub parse_amp :
    (n m w : ℕ)
    → 0 < w
    → n < 2 ^ w
    → m < 2 ^ w
    → parse_ternary_str (amp_text n m) w ≡ ok (shortest w n, shortest w m)
unfolding parse_ternary_str encode_pair
parse_amp n m w h fn fm = rw (split_amp n m, exact_hex n w h fn, exact_hex m w h fm) refl

prefix_ones : (p w : ℕ) → p ≤ w → all_ones p * 2 ^ (w - p) ≡ prefix_mask w p
unfolding all_ones
prefix_ones p w h = omega (
  arith,
  mul-sub (2 ^ (w - p)) (2 ^ p) 1,
  pow_split p w h,
  mul_comm (2 ^ p - 1) (2 ^ (w - p)),
  mul_comm (2 ^ p) (2 ^ (w - p)),
)

prefix_mask-lt : (p w : ℕ) → prefix_mask w p < 2 ^ w
prefix_mask-lt p w = omega (arith, pow_pos w, pow_pos (w - p))

prefix_form-encode :
    (p w : ℕ) (bs : Bytes)
    → 0 < w
    → p ≤ w
    → prefix_form (ok (bs, p)) w ≡ ok (bs, shortest w (prefix_mask w p))
unfolding prefix_form
prefix_form-encode p w bs h le =
    rw (prefix_ones p w le, exact_number (prefix_mask w p) w h (prefix_mask-lt p w)) refl

pub parse_slash :
    (n p w : ℕ)
    → 0 < w
    → n < 2 ^ w
    → p ≤ w
    → parse_ternary_str (slash_text n p) w
      ≡ ok (shortest w (cleared n w p), shortest w (prefix_mask w p))
unfolding parse_ternary_str parse_lpm_str
parse_slash n p w h fn le =
    let lpm = encode_prefixed_fits (str (hex n)) w n p h (exact_int-hex n w) fn le in
    rw (split_slash_amp n p, split_slash n p, parse_lpm_prefix-decimal p w, lpm)
      (prefix_form-encode p w _ h le)

pub parse_plain :
    (n w : ℕ)
    → 0 < w
    → n < 2 ^ w
    → parse_ternary_str (hex n) w ≡ ok (shortest w n, shortest w (prefix_mask w w))
unfolding parse_ternary_str parse_lpm_str
parse_plain n w h fn =
    let slash = (hex-lacks b'/' n IsOther-slash).0 in
    rw
      (
        split_once-none b'/' (codes "&") (hex n) slash,
        split_once-none b'/' [] (hex n) slash,
        exact_hex n w h fn,
      )
      (prefix_form-encode w w _ h (omega arith))
