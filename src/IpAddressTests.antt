-- ===== src/IpAddressTests.antt =====
-- Runs of the address parser and printer.
use finsy.Prelude.{◌≡◌, refl, codes, ok, err, value_error, ◌^◌, ◌*◌}
use finsy.IpAddress.{ipv4_from_text, ipv4_text, ipv6_from_text, ipv6_text}
use finsy.Text.{contains, split, join}
use finsy.Text.Number.{digits_after, digit_value, decimal, hex}
use finsy.Bytes.{be_bytes, from_bytes_after}

ipv4_read : ipv4_from_text (codes "10.0.0.255") ≡ ok 0x0A0000FF
unfolding ipv4_from_text split digits_after digit_value from_bytes_after
ipv4_read = refl

ipv4_leading_zero : ipv4_from_text (codes "10.0.0.05") ≡ err value_error
unfolding ipv4_from_text split digits_after digit_value from_bytes_after
ipv4_leading_zero = refl

ipv4_print : ipv4_text 0x0A0000FF ≡ codes "10.0.0.255"
unfolding ipv4_text join decimal be_bytes
ipv4_print = refl

ipv6_read : ipv6_from_text (codes "2001:db8::1:10.0.0.1") ≡ ok 0x20010db800000000000000010A000001
unfolding ipv6_from_text split contains digits_after digit_value from_bytes_after hex
ipv6_read = refl

ipv6_loopback : ipv6_from_text (codes "::1") ≡ ok 1
unfolding ipv6_from_text split contains digits_after digit_value from_bytes_after hex
ipv6_loopback = refl

ipv6_prefix : ipv6_from_text (codes "fe80::") ≡ ok (0xfe80 * 2 ^ 112)
unfolding ipv6_from_text split contains digits_after digit_value from_bytes_after hex
ipv6_prefix = refl

ipv6_two_gaps : ipv6_from_text (codes "1::2::3") ≡ err value_error
unfolding ipv6_from_text split contains digits_after digit_value from_bytes_after hex
ipv6_two_gaps = refl

ipv6_print : ipv6_text 0x20010db8000000000001000000000001 ≡ codes "2001:db8::1:0:0:1"
unfolding ipv6_text join hex
ipv6_print = refl

ipv6_print_zero : ipv6_text 0 ≡ codes "::"
unfolding ipv6_text join hex
ipv6_print_zero = refl
