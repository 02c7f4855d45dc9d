-- ===== src/MacAddress/Laws.antt =====
-- The range of every MAC address.
use finsy.Prelude.{ℕ, ◌^◌, ◌<◌, ◌≡◌, [], ◌∷◌, List, Str, Bytes, length, All, arith}
use finsy.Prelude.{
  ok, ◌==◌, ==_iff, inl, inr, Bool-cases, subst, Ensures, Ensures-bind, Ensures-of, eq-ok_Ensures,
}
use finsy.Prelude.Int.{ℤ, pos, negsuc}
use finsy.Text.{split}
use finsy.Bytes.{IsByte, from_bytes}
use finsy.Bytes.Laws.{from_bytes-lt}
use finsy.MacAddress.{
  MacAddress, Source, int, bytes, address, text, mac_from_int, mac_from_bytes, mac_from_string,
  parse_octet, octet_byte, parse_octets, mac_address, delimiter,
}

-- What a caller can hold: addresses in range, and byte strings of bytes.
abbrev pub IsSource : Source → Type 0
IsSource (int value) = Unit
IsSource (bytes value) = All IsByte value
IsSource (address value) = value.mac < 2 ^ 48
IsSource (text value) = Unit

octet_byte-IsByte : (n : ℤ) {b : ℕ} → octet_byte n ≡ ok b → IsByte b
unfolding octet_byte
octet_byte-IsByte (pos n) h = ground arith
octet_byte-IsByte (negsuc n) h = cc

parse_octets-IsByte : (ws : List Str) → Ensures (All IsByte) (parse_octets ws)
unfolding parse_octets
parse_octets-IsByte [] = tt
parse_octets-IsByte (w ∷ ws) =
    let tail = parse_octets-IsByte ws in
    Ensures-bind (λ _. Unit {0}) (All IsByte) (parse_octet w) _
      (Ensures-of _ (parse_octet w) (λ _ _. tt))
      λ octet _.
        Ensures-bind IsByte (All IsByte) (octet_byte octet) _
          (Ensures-of _ (octet_byte octet) (λ b e. octet_byte-IsByte octet e))
          λ byte p.
            Ensures-bind (All IsByte) (All IsByte) (parse_octets ws) _ tail (λ rest h. (p, h))

mac_from_bytes_range : (bs : Bytes) → All IsByte bs → Ensures (λ n. n < 2 ^ 48) (mac_from_bytes bs)
unfolding mac_from_bytes
mac_from_bytes_range bs h = elim (Bool-cases (length bs == 6)) [
  | inl six ↦
      let wide : length bs ≡ 6 = (==_iff _ _).0 six in
      rw six (subst (λ (k : ℕ). from_bytes bs < 256 ^ k) wide (from_bytes-lt bs h))
  | inr other ↦ rw other tt
]

mac_from_string_range : (s : Str) → Ensures (λ n. n < 2 ^ 48) (mac_from_string s)
unfolding mac_from_string
mac_from_string_range s =
    Ensures-bind (All IsByte) (λ n. n < 2 ^ 48) (parse_octets (split (delimiter s) s))
      mac_from_bytes (parse_octets-IsByte (split (delimiter s) s))
      (λ bs h. mac_from_bytes_range bs h)

abbrev InRange : MacAddress → Type 0
InRange a = a.mac < 2 ^ 48

mac_address-InRange : (s : Source) → IsSource s → Ensures InRange (mac_address s)
unfolding mac_address
mac_address-InRange (int (pos n)) h =
    unfold mac_from_int in
    Ensures-bind (λ m. m < 2 ^ 48) InRange (mac_from_int (pos n)) _
      (Ensures-of _ (mac_from_int (pos n)) (λ m e. ground arith)) (λ m p. p)
mac_address-InRange (int (negsuc n)) h = unfold mac_from_int in tt
mac_address-InRange (bytes bs) h =
    Ensures-bind (λ m. m < 2 ^ 48) InRange (mac_from_bytes bs) _ (mac_from_bytes_range bs h)
      (λ m p. p)
mac_address-InRange (address b) h = h
mac_address-InRange (text s) h =
    Ensures-bind (λ m. m < 2 ^ 48) InRange (mac_from_string s) _ (mac_from_string_range s)
      (λ m p. p)

-- Every address that the constructor returns is below 2 ^ 48, where an address that it is given is
-- below 2 ^ 48 and bytes that it is given are below 256.
mac_address_range :
    (s : Source) {a : MacAddress} → IsSource s → mac_address s ≡ ok a → a.mac < 2 ^ 48
mac_address_range s h e = eq-ok_Ensures InRange e (mac_address-InRange s h)
