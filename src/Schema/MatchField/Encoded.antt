-- ===== src/Schema/MatchField/Encoded.antt =====
-- The bytes that the value codecs make: the shortest form of a number that fits the width.
use finsy.Prelude.{
  ℕ, ◌-◌, ◌%◌, ◌^◌, ◌≤◌, ◌<◌, ◌≡◌, refl, ap, sym, subst, ◌∙◌, inl, inr, Bool, false, Str, Bytes,
  codes, ◌==◌, Bool-cases, Option-cases, ne→==_false,
}
use finsy.Prelude.{arith, Result, ok, err, >>=-eq-ok, Result-cases}
use finsy.Prelude.Int.{ℤ, pos, negsuc}
use finsy.Text.{split_once}
use finsy.Values.Masks.{all_ones}
use finsy.Values.Exact.{
  ExactValue, int, str, ipv4, ipv6, mac, DecodeFormat, encode_exact, encode_masked, decode_exact,
  present, exact_int,
}
use finsy.Values.Exact.Laws.{
  shortest, encode_masked_inv, apply_mask-no_mask, apply_mask-prefix, decode_exact-shortest,
  exact_int-present,
}
use finsy.Values.Lpm.{
  LpmValue, check_prefix, encode_prefixed, parse_lpm_prefix, parse_lpm_str, encode_lpm, with_prefix,
  of_width,
}
use finsy.Values.Lpm.Laws.{cleared, cleared-mod}
use finsy.Values.Ternary.{encode_pair}
use finsy.Values.Ternary.Laws.{exact_shortest}

abbrev pub IsEncoded : ℕ → Bytes → Type 0
IsEncoded w bs = (n : ℕ) × (n < 2 ^ w) × (bs ≡ shortest w n)

-- The prefix is within the width, and no bit below it is set.
abbrev pub IsPrefixed : ℕ → Bytes × ℕ → Type 0
IsPrefixed w (bs, p) = (n : ℕ) × (n < 2 ^ w) × (bs ≡ shortest w n) × (p ≤ w) × (n % 2 ^ (w - p) ≡ 0)

abbrev pub ArePaired : ℕ → Bytes × Bytes → Type 0
ArePaired w (a, b) = IsEncoded w a × IsEncoded w b

-- A format without STRING
abbrev pub shown_as : Bool → DecodeFormat
shown_as as_address = record { as_string = false; as_address = as_address }

pub encode_exact-IsEncoded :
    (v : ExactValue) (w : ℕ) {bs : Bytes} → 0 < w → encode_exact v w ≡ ok bs → IsEncoded w bs
encode_exact-IsEncoded v w h e =
    let (n, _, fits, same) = encode_masked_inv v w _ h e in
    (n, fits, same ∙ ap (shortest w) (apply_mask-no_mask n))

-- Decoded bytes are encoded again as they were.
pub decode_exact-IsEncoded :
    (w : ℕ) (bs : Bytes) (as_address : Bool)
    → 0 < w
    → IsEncoded w bs
    → (n : ℕ) × (decode_exact bs w (shown_as as_address) ≡ ok (present n w (shown_as as_address)))
      × (encode_exact (present n w (shown_as as_address)) w ≡ ok bs)
decode_exact-IsEncoded w bs as_address h (n, fits, same) = (
  n,
  subst (λ s. decode_exact s w (shown_as as_address) ≡ ok (present n w (shown_as as_address)))
      (sym same) (decode_exact-shortest w n (shown_as as_address) h fits),
  exact_shortest _ w n h (exact_int-present n w as_address) fits ∙ ap ok (sym same),
)

pub encode_pair-ArePaired :
    (a b : ExactValue) (w : ℕ) {pair : Bytes × Bytes}
    → 0 < w
    → encode_pair a b w ≡ ok pair
    → ArePaired w pair
unfolding encode_pair
encode_pair-ArePaired a b w {pair} h e =
    let (x, ex, e1) = >>=-eq-ok (encode_exact a w) _ e in
    let (y, ey, e2) = >>=-eq-ok (encode_exact b w) _ e1 in
    let same : pair ≡ (x, y) = ground arith in
    subst (ArePaired w) (sym same)
      (encode_exact-IsEncoded a w h ex, encode_exact-IsEncoded b w h ey)

check_prefix_inv : (z : ℤ) (w : ℕ) {p : ℕ} → check_prefix z w ≡ ok p → p ≤ w
unfolding check_prefix
check_prefix_inv (pos p) w e = ground arith
check_prefix_inv (negsuc p) w e = cc

encode_prefixed-IsPrefixed :
    (v : ExactValue) (w : ℕ) (z : ℤ) {pair : Bytes × ℕ}
    → 0 < w
    → encode_prefixed v w z ≡ ok pair
    → IsPrefixed w pair
unfolding encode_prefixed
encode_prefixed-IsPrefixed v w z {pair} h e =
    let (p, ep, e1) = >>=-eq-ok (check_prefix z w) _ e in
    let (bs, eb, e2) = >>=-eq-ok (encode_masked v w (negsuc (all_ones (w - p)))) _ e1 in
    let (n, _, fits, own) = encode_masked_inv v w _ h eb in
    let same : pair ≡ (bs, p) = ground arith in
    subst (IsPrefixed w) (sym same) (
      cleared n w p,
      omega arith,
      own ∙ ap (shortest w) (apply_mask-prefix n (w - p)),
      check_prefix_inv z w ep,
      cleared-mod n w p,
    )

-- A whole prefix clears nothing.
whole-IsPrefixed : (w : ℕ) (bs : Bytes) → IsEncoded w bs → IsPrefixed w (bs, w)
whole-IsPrefixed w bs (n, fits, same) =
    let none_below : w - w ≡ 0 = omega arith in
    (n, fits, same, omega arith, rw none_below (omega arith))

pub parse_lpm_str-IsPrefixed :
    (s : Str) (w : ℕ) {pair : Bytes × ℕ} → 0 < w → parse_lpm_str s w ≡ ok pair → IsPrefixed w pair
unfolding parse_lpm_str
parse_lpm_str-IsPrefixed s w {pair} h e = elim (Option-cases (split_once (codes "/") s)) [
  | inl whole ↦ elim (Result-cases (encode_exact (str s) w)) [
    | inl (bs, eb) ↦
        let same : pair ≡ (bs, w) = ground (arith, rw (whole, eb) at e) in
        subst (IsPrefixed w) (sym same)
          (whole-IsPrefixed w bs (encode_exact-IsEncoded (str s) w h eb))
    | inr (x, ex) ↦ cc (rw (whole, ex) at e)
  ]
  | inr ((front, back), parts) ↦
      let (z, _, e1) = >>=-eq-ok (parse_lpm_prefix back w) _ (rw (parts, parse_lpm_str) at e) in
      encode_prefixed-IsPrefixed (str front) w z h e1
]

-- What the library's networks promise: the prefix fits, and no bit below it is set.
abbrev pub IsNetwork : ℕ → ℕ → ℕ → Type 0
IsNetwork width n prefixlen = (prefixlen ≤ width) × (n % 2 ^ (width - prefixlen) ≡ 0)

abbrev pub IsLpmValue : LpmValue → Type 0
IsLpmValue (LpmValue.ipv4_network n prefixlen) = IsNetwork 32 n prefixlen
IsLpmValue (LpmValue.ipv6_network n prefixlen) = IsNetwork 128 n prefixlen
IsLpmValue _ = Unit

with_prefix_inv :
    (r : Result Bytes) (p : ℕ) {pair : Bytes × ℕ}
    → with_prefix r p ≡ ok pair
    → (bs : Bytes) × (r ≡ ok bs) × (pair ≡ (bs, p))
unfolding with_prefix
with_prefix_inv (ok bs) p {pair} e = (bs, refl, ground arith)
with_prefix_inv (err x) p e = cc

of_width_inv :
    (width : ℕ) (v : ExactValue) (w p : ℕ) {pair : Bytes × ℕ}
    → of_width width v w p ≡ ok pair
    → (w ≡ width) × ((bs : Bytes) × (encode_exact v w ≡ ok bs) × (pair ≡ (bs, p)))
unfolding of_width
of_width_inv width v w p e = elim (Bool-cases (w == width)) [
  | inl same ↦ (ground arith, with_prefix_inv (encode_exact v w) p (rw same at e))
  | inr other ↦ cc (rw other at e)
]

exact_int-ipv4 : (n : ℕ) → exact_int (ipv4 n) 32 ≡ ok (pos n)
unfolding exact_int
exact_int-ipv4 n = refl

exact_int-ipv6 : (n : ℕ) → exact_int (ipv6 n) 128 ≡ ok (pos n)
unfolding exact_int
exact_int-ipv6 n = refl

-- A value alone has the whole width as its prefix.
alone-IsPrefixed :
    (v : ExactValue) (w : ℕ) {pair : Bytes × ℕ}
    → 0 < w
    → ((bs : Bytes) × (encode_exact v w ≡ ok bs) × (pair ≡ (bs, w)))
    → IsPrefixed w pair
alone-IsPrefixed v w h (bs, e, same) =
    subst (IsPrefixed w) (sym same) (whole-IsPrefixed w bs (encode_exact-IsEncoded v w h e))

network-IsPrefixed :
    (width : ℕ) (v : ExactValue) (w n p : ℕ) {pair : Bytes × ℕ}
    → 0 < w
    → (exact_int v width ≡ ok (pos n))
    → IsNetwork width n p
    → of_width width v w p ≡ ok pair
    → IsPrefixed w pair
network-IsPrefixed width v w n p h value k e =
    let (same_width, (bs, encoded, same)) = of_width_inv width v w p e in
    let (m, is_m, fits, own) = encode_masked_inv v w _ h encoded in
    let both : ok (pos m) ≡ ok (pos n) = sym is_m ∙ ap (exact_int v) same_width ∙ value in
    let number : m ≡ n = ground arith in
    subst (IsPrefixed w) (sym same) (
      n,
      rw number at fits,
      own ∙ ap (shortest w) (apply_mask-no_mask m ∙ number),
      rw same_width k.0,
      rw same_width k.1,
    )

pub encode_lpm-IsPrefixed :
    (v : LpmValue) (w : ℕ) {pair : Bytes × ℕ}
    → 0 < w
    → IsLpmValue v
    → encode_lpm v w ≡ ok pair
    → IsPrefixed w pair
unfolding encode_lpm
encode_lpm-IsPrefixed (LpmValue.exact (int n)) w h k e =
    alone-IsPrefixed (int n) w h (with_prefix_inv _ w (rw (ne→==_false w h) at e))
encode_lpm-IsPrefixed (LpmValue.exact (str s)) w h k e =
    parse_lpm_str-IsPrefixed s w h (rw (ne→==_false w h) at e)
encode_lpm-IsPrefixed (LpmValue.exact (ipv4 n)) w h k e =
    alone-IsPrefixed (ipv4 n) w h (of_width_inv 32 (ipv4 n) w w (rw (ne→==_false w h) at e)).1
encode_lpm-IsPrefixed (LpmValue.exact (ipv6 n)) w h k e =
    alone-IsPrefixed (ipv6 n) w h (of_width_inv 128 (ipv6 n) w w (rw (ne→==_false w h) at e)).1
encode_lpm-IsPrefixed (LpmValue.exact (mac a)) w h k e =
    alone-IsPrefixed (mac a) w h (of_width_inv 48 (mac a) w w (rw (ne→==_false w h) at e)).1
encode_lpm-IsPrefixed (LpmValue.pair v z) w h k e =
    encode_prefixed-IsPrefixed v w z h (rw (ne→==_false w h) at e)
encode_lpm-IsPrefixed (LpmValue.ipv4_network n p) w h k e =
    network-IsPrefixed 32 (ipv4 n) w n p h (exact_int-ipv4 n) k (rw (ne→==_false w h) at e)
encode_lpm-IsPrefixed (LpmValue.ipv6_network n p) w h k e =
    network-IsPrefixed 128 (ipv6 n) w n p h (exact_int-ipv6 n) k (rw (ne→==_false w h) at e)
