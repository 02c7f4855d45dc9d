-- ===== src/MacAddress/Examples.antt =====
-- Runs of the MAC address parser, and its theorems at concrete addresses.
use finsy.Prelude.{true, false, ◌≡◌, refl, arith, codes, ok, err, value_error}
use finsy.Bytes.{from_bytes_after}
use finsy.Text.{contains, split, strip_by, is_space}
use finsy.Text.Number.{parse_int, signed, is_int_space}
use finsy.MacAddress.{
  MacAddress, text, bytes, mac_address, to_string, packed, max_prefixlen, is_multicast, is_private,
  is_global, is_unspecified, is_broadcast, mac_eq, mac_lt,
}
use finsy.MacAddress.RoundTrip.{mac_address_round_trip, dashed}

abbrev sample : MacAddress
sample = record { mac = 0x0A0B0C0D0E0F }

parsed : mac_address (text (codes "0a-B-0c-0d-0e-0f")) ≡ ok sample
unfolding mac_address contains split strip_by is_space parse_int signed is_int_space
    from_bytes_after
parsed = refl

too_short : mac_address (text (codes "0a:0b:0c:0d:0e")) ≡ err value_error
unfolding mac_address contains split strip_by is_space parse_int signed is_int_space
    from_bytes_after
too_short = refl

-- `int` takes a sign, so an octet may have one.
signed_octet : mac_address (text (codes "+a:0b:0c:0d:0e:0f")) ≡ ok sample
unfolding mac_address contains split strip_by is_space parse_int signed is_int_space
    from_bytes_after
signed_octet = refl

mac_address_round_trip_example :
    (mac_address (text (to_string sample)) ≡ ok sample)
    × (mac_address (text (dashed sample)) ≡ ok sample)
    × (mac_address (bytes (packed sample)) ≡ ok sample)
mac_address_round_trip_example = mac_address_round_trip sample (omega arith)

-- The addresses that the predicates tell apart.
multicast : (is_multicast (record { mac = 0x010000000000 }) ≡ true) × (is_multicast sample ≡ false)
unfolding is_multicast
multicast = (refl, refl)

private : (is_private (record { mac = 0x020000000000 }) ≡ true) × (is_global sample ≡ false)
unfolding is_private is_global
private = (refl, refl)

ends :
    (is_unspecified (record { mac = 0 }) ≡ true)
    × (is_broadcast (record { mac = 0xFFFFFFFFFFFF }) ≡ true)
unfolding is_unspecified is_broadcast
ends = (refl, refl)

ordered :
    (mac_lt (record { mac = 0 }) sample ≡ true)
    × (mac_eq sample sample ≡ true)
    × (max_prefixlen sample ≡ 48)
unfolding mac_lt mac_eq max_prefixlen
ordered = (refl, refl, refl)
