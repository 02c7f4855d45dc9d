-- ===== src/MacAddress.antt =====
-- finsy/macaddr.py: MAC addresses of 48 bits.
-- A `MACAddress` object has one immutable field, the number `_mac`; the parts of the standard
-- library that it uses are in Bytes and Text.
pub mod Laws
pub mod RoundTrip
mod Examples
use finsy.Prelude.{ℕ, zero, suc, ◌+◌, ◌-◌, ◌^◌, Bool, true, false, ◌&&◌, ◌||◌, not, bit_and}
use finsy.Prelude.{[], ◌∷◌, List, Str, Bytes, length, map, ltb, leb, ◌==◌, if◌then◌else◌}
use finsy.Prelude.{Result, ok, err, value_error, ◌>>=◌, ◌>>◌, guard}
use finsy.Prelude.Int.{ℤ, pos, negsuc}
use finsy.Bytes.{be_bytes, from_bytes}
use finsy.Text.{contains, split, strip, join}
use finsy.Text.Number.{parse_int, hex02}

pub record MacAddress : Type 0 where
  pub mac : ℕ

-- What the constructor is given. Any other object goes by its text.
pub data Source : Type 0 where
  int : ℤ → Source
  bytes : Bytes → Source
  address : MacAddress → Source
  text : Str → Source

-- `value < 0 or value > (1 << 48) - 1` is refused.
unfoldable pub mac_from_int : ℤ → Result ℕ
mac_from_int (negsuc n) = err value_error
mac_from_int (pos n) = if ltb (2 ^ 48 - 1) n then err value_error else ok n

unfoldable pub mac_from_bytes : Bytes → Result ℕ
mac_from_bytes value = if length value == 6 then ok (from_bytes value) else err value_error

unfoldable pub parse_octet : Str → Result ℤ
parse_octet value =
    if length value == 1 || (length value == 2 && length (strip value) == 2)
    then parse_int 16 value
    else err value_error

-- bytes(…) refuses what is not in range(256).
unfoldable pub octet_byte : ℤ → Result ℕ
octet_byte (negsuc n) = err value_error
octet_byte (pos n) = if ltb n 256 then ok n else err value_error

unfoldable pub parse_octets : List Str → Result Bytes
unfolding parse_octet octet_byte
parse_octets [] = ok []
parse_octets (w ∷ ws) = do
  octet ← parse_octet w
  byte ← octet_byte octet
  rest ← parse_octets ws
  ok (byte ∷ rest)

abbrev delimiter : Str → ℕ
delimiter value = if contains b'-' value then b'-' else b':'

-- Every error inside is a ValueError, and is raised again as one.
unfoldable pub mac_from_string : Str → Result ℕ
unfolding parse_octets
mac_from_string value = do
  octets ← parse_octets (split (delimiter value) value)
  mac_from_bytes octets

abbrev as_mac : ℕ → MacAddress
as_mac n = record { mac = n }

-- MACAddress(value)
unfoldable pub mac_address : Source → Result MacAddress
unfolding mac_from_int mac_from_bytes mac_from_string
mac_address (int value) = do mac ← mac_from_int value; ok (as_mac mac)
mac_address (bytes value) = do mac ← mac_from_bytes value; ok (as_mac mac)
mac_address (address value) = ok (as_mac value.mac)
mac_address (text value) = do mac ← mac_from_string value; ok (as_mac mac)

-- The `packed` property, which is `_to_bytes`: below 2 ^ 48 it cannot fail.
unfoldable pub packed : MacAddress → Bytes
packed a = be_bytes 6 a.mac

-- str(a), which is `_to_string`
unfoldable pub to_string : MacAddress → Str
unfolding packed
to_string a = join (b':' ∷ []) (map hex02 (packed a))

unfoldable pub max_prefixlen : MacAddress → ℕ
max_prefixlen a = 48

pub is_multicast : MacAddress → Bool
is_multicast a = not (bit_and a.mac (2 ^ 40) == 0)

pub is_private : MacAddress → Bool
is_private a = not (bit_and a.mac (2 ^ 41) == 0)

pub is_global : MacAddress → Bool
unfolding is_private
is_global a = not (is_private a)

pub is_unspecified : MacAddress → Bool
is_unspecified a = a.mac == 0

pub is_broadcast : MacAddress → Bool
is_broadcast a = a.mac == (2 ^ 48 - 1)

-- `==` and `<`; functools.total_ordering derives the other orders from them.
pub mac_eq : MacAddress → MacAddress → Bool
mac_eq a b = a.mac == b.mac

pub mac_lt : MacAddress → MacAddress → Bool
mac_lt a b = ltb a.mac b.mac
