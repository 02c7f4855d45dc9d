-- ===== src/MacAddress/RoundTrip.antt =====
-- A MAC address is read back from its text, with either delimiter, and from its bytes.
use finsy.Prelude.{ℕ, zero, suc, ◌^◌, ◌<◌, ◌≡◌, refl, arith}
use finsy.Prelude.{[], ◌∷◌, Str, Bytes, length, map, All, Bool, true, false, ◌&&◌, not}
use finsy.Prelude.{ok, ◌==◌}
use finsy.Prelude.Int.{pos}
use finsy.Bytes.{IsByte, be_bytes}
use finsy.Bytes.Laws.{from_bytes-be_bytes, length-be_bytes, be_bytes-IsByte}
use finsy.Text.{contains, strip_by, is_space, join}
use finsy.Text.Number.{parse_int, signed, is_int_space, hex02}
use finsy.Text.Laws.{split-join, contains-join, contains-separator}
use finsy.MacAddress.{
  MacAddress, text, bytes, mac_from_bytes, mac_from_string, parse_octet, octet_byte, parse_octets,
  mac_address, delimiter, packed, to_string,
}

-- A test that holds of every byte by evaluation.
every_below : ℕ → (ℕ → Bool) → Bool
every_below zero p = true
every_below (suc n) p = p n && every_below n p

every_below→eq : (n : ℕ) (p : ℕ → Bool) (x : ℕ) → every_below n p ≡ true → x < n → p x ≡ true
unfolding every_below
every_below→eq zero p x h lt = absurd (omega arith)
every_below→eq (suc n) p x h lt = ground (arith, every_below→eq n p x)

reads_octet : ℕ → Bool
unfolding parse_octet
reads_octet o = elim (parse_octet (hex02 o)) [ ok (pos n) ↦ n == o | _ ↦ false ]

octet_table : every_below 256 reads_octet ≡ true
unfolding every_below reads_octet parse_octet parse_int signed is_int_space hex02 strip_by is_space
octet_table = refl

reads_octet→eq : (o : ℕ) → reads_octet o ≡ true → parse_octet (hex02 o) ≡ ok (pos o)
unfolding reads_octet
reads_octet→eq o h = ground arith

parse_octet-hex02 : (o : ℕ) → o < 256 → parse_octet (hex02 o) ≡ ok (pos o)
parse_octet-hex02 o h = reads_octet→eq o (every_below→eq 256 reads_octet o octet_table h)

lacks : ℕ → ℕ → Bool
lacks c o = not (contains c (hex02 o))

dash_table : every_below 256 (lacks b'-') ≡ true
unfolding every_below lacks contains hex02
dash_table = refl

colon_table : every_below 256 (lacks b':') ≡ true
unfolding every_below lacks contains hex02
colon_table = refl

hex02s_lack :
    (c : ℕ) (bs : Bytes)
    → every_below 256 (lacks c) ≡ true
    → All IsByte bs
    → All (λ w. contains c w ≡ false) (map hex02 bs)
hex02s_lack c [] t h = tt
hex02s_lack c (b ∷ bs) t (p, h) =
    let here = every_below→eq 256 (lacks c) b t p in
    (unfold lacks in ground arith, hex02s_lack c bs t h)

parse_octets-hex02 : (bs : Bytes) → All IsByte bs → parse_octets (map hex02 bs) ≡ ok bs
unfolding parse_octets octet_byte
parse_octets-hex02 [] h = refl
parse_octets-hex02 (b ∷ bs) (p, h) =
    rw (parse_octet-hex02 b p, parse_octets-hex02 bs h) (ground arith)

-- A text of octets joined by `sep`, where `sep` is the delimiter that the parser finds.
mac_from_string-join :
    (sep b : ℕ) (bs : Bytes)
    → every_below 256 (lacks sep) ≡ true
    → All IsByte (b ∷ bs)
    → delimiter (join (sep ∷ []) (map hex02 (b ∷ bs))) ≡ sep
    → mac_from_string (join (sep ∷ []) (map hex02 (b ∷ bs))) ≡ mac_from_bytes (b ∷ bs)
unfolding mac_from_string
mac_from_string-join sep b bs t h d =
    let words = split-join sep (hex02 b) (map hex02 bs) (hex02s_lack sep (b ∷ bs) t h) in
    rw (d, words, parse_octets-hex02 (b ∷ bs) h) refl

-- The form with dashes, "hh-hh-hh-hh-hh-hh".
abbrev pub dashed : MacAddress → Str
dashed a = join (b'-' ∷ []) (map hex02 (packed a))

packed-bytes : (a : MacAddress) → All IsByte (packed a) × (length (packed a) ≡ 6)
unfolding packed
packed-bytes a = (be_bytes-IsByte 6 a.mac, length-be_bytes 6 a.mac)

delimiter-colon : (a : MacAddress) → delimiter (to_string a) ≡ b':'
unfolding to_string
delimiter-colon a =
    let words = hex02s_lack b'-' (packed a) dash_table (packed-bytes a).0 in
    rw (contains-join b'-' (b':' ∷ []) (map hex02 (packed a)) (unfold contains in refl) words) refl

delimiter-dash :
    (b c : ℕ) (bs : Bytes) → delimiter (join (b'-' ∷ []) (map hex02 (b ∷ c ∷ bs))) ≡ b'-'
unfolding join
delimiter-dash b c bs =
    rw (contains-separator b'-' (hex02 b) (join (b'-' ∷ []) (map hex02 (c ∷ bs)))) refl

mac_from_bytes-packed : (a : MacAddress) → a.mac < 2 ^ 48 → mac_from_bytes (packed a) ≡ ok a.mac
unfolding mac_from_bytes packed
mac_from_bytes-packed a h =
    rw (length-be_bytes 6 a.mac, from_bytes-be_bytes 6 a.mac (omega arith)) refl

packed_shape : (a : MacAddress) → (b c : ℕ) × (bs : Bytes) × (packed a ≡ b ∷ c ∷ bs)
unfolding packed be_bytes
packed_shape a = (_, _, _, refl)

mac_from_string-packed :
    (a : MacAddress) (sep : ℕ)
    → every_below 256 (lacks sep) ≡ true
    → delimiter (join (sep ∷ []) (map hex02 (packed a))) ≡ sep
    → mac_from_string (join (sep ∷ []) (map hex02 (packed a))) ≡ mac_from_bytes (packed a)
mac_from_string-packed a sep t d =
    let (b, c, bs, e) = packed_shape a in
    let good = rw e at (packed-bytes a).0 in
    rw e (mac_from_string-join sep b (c ∷ bs) t good (rw e at d))

delimiter-dashed : (a : MacAddress) → delimiter (dashed a) ≡ b'-'
delimiter-dashed a = let (b, c, bs, e) = packed_shape a in rw e (delimiter-dash b c bs)

-- Every address in range is read back from its text, from the text with dashes, and from its bytes.
pub mac_address_round_trip :
    (a : MacAddress)
    → a.mac < 2 ^ 48
    → (mac_address (text (to_string a)) ≡ ok a)
      × (mac_address (text (dashed a)) ≡ ok a)
      × (mac_address (bytes (packed a)) ≡ ok a)
unfolding mac_address to_string
mac_address_round_trip a h =
    let whole = mac_from_bytes-packed a h in
    (
      rw (mac_from_string-packed a b':' colon_table (delimiter-colon a), whole) refl,
      rw (mac_from_string-packed a b'-' dash_table (delimiter-dashed a), whole) refl,
      rw whole refl,
    )
