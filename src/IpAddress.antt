-- ===== src/IpAddress.antt =====
-- The `ipaddress` module of Python's standard library, as far as finsy uses it: an address is its
-- number, made from a text and printed as one. A network is its address and its prefix length.
use finsy.Prelude.{ℕ, zero, suc, ◌+◌, ◌-◌, ◌*◌, ◌/◌, ◌%◌, ◌^◌, Bool, true, false, ◌&&◌, ◌||◌, not}
use finsy.Prelude.{[], ◌∷◌, ◌++◌, List, Str, length, take, drop, map, none, some}
use finsy.Prelude.{ltb, leb, ◌==◌, if◌then◌else◌}
use finsy.Prelude.{Result, ok, err, value_error, ◌>>=◌, ◌>>◌, guard}
use finsy.Text.{contains, split, join}
use finsy.Text.Number.{digits_after, digit_value, decimal, hex}
use finsy.Bytes.{be_bytes, from_bytes}

is_empty : Str → Bool
is_empty [] = true
is_empty (c ∷ s) = false

-- Every character is a digit of the base.
all_digits : ℕ → Str → Bool
unfolding digit_value
all_digits base [] = true
all_digits base (c ∷ s) = ltb (digit_value c) base && all_digits base s

number_in : ℕ → Str → Result ℕ
unfolding digits_after
number_in base s = elim (digits_after base s 0 true) [ none ↦ err value_error | some n ↦ ok n ]

leading_zero : Str → Bool
leading_zero [] = false
leading_zero (c ∷ []) = false
leading_zero (c ∷ d ∷ s) = c == b'0'

ipv4_octet : Str → Result ℕ
unfolding is_empty all_digits number_in leading_zero
ipv4_octet s = do
  guard (not (is_empty s) && all_digits 10 s && leb (length s) 3 && not (leading_zero s))
      value_error
  n ← number_in 10 s
  guard (leb n 255) value_error
  ok n

ipv4_octets : List Str → Result (List ℕ)
unfolding ipv4_octet
ipv4_octets [] = ok []
ipv4_octets (w ∷ ws) = do n ← ipv4_octet w; ns ← ipv4_octets ws; ok (n ∷ ns)

-- int(IPv4Address(s))
unfoldable pub ipv4_from_text : Str → Result ℕ
unfolding ipv4_octets
ipv4_from_text s = do
  guard (length (split b'.' s) == 4) value_error
  ns ← ipv4_octets (split b'.' s)
  ok (from_bytes ns)

-- str(IPv4Address(n))
unfoldable pub ipv4_text : ℕ → Str
ipv4_text n = join (b'.' ∷ []) (map decimal (be_bytes 4 n))

hextet : Str → Result ℕ
unfolding all_digits number_in
hextet s = do guard (all_digits 16 s && leb (length s) 4) value_error; number_in 16 s

hextets_after : ℕ → List Str → Result ℕ
unfolding hextet
hextets_after acc [] = ok acc
hextets_after acc (w ∷ ws) = do n ← hextet w; hextets_after (acc * 2 ^ 16 + n) ws

-- A dotted last part stands for two parts.
hex_word : ℕ → Str
hex_word n = drop 2 (hex n)

expand_tail : List Str → Result (List Str)
unfolding hex_word ipv4_from_text
expand_tail [] = ok []
expand_tail (w ∷ []) =
    if contains b'.' w
    then (do n ← ipv4_from_text w; ok (hex_word (n / 2 ^ 16) ∷ hex_word (n % 2 ^ 16) ∷ []))
    else ok (w ∷ [])
expand_tail (w ∷ v ∷ ws) = do rest ← expand_tail (v ∷ ws); ok (w ∷ rest)

-- The places, from `i` on, of the empty parts other than the last part.
inner_gaps : ℕ → List Str → List ℕ
unfolding is_empty
inner_gaps i [] = []
inner_gaps i (w ∷ []) = []
inner_gaps i (w ∷ v ∷ ws) =
    let rest = inner_gaps (i + 1) (v ∷ ws) in if is_empty w then i ∷ rest else rest

first_is_empty : List Str → Bool
unfolding is_empty
first_is_empty [] = false
first_is_empty (w ∷ ws) = is_empty w

last_is_empty : List Str → Bool
unfolding is_empty
last_is_empty [] = false
last_is_empty (w ∷ []) = is_empty w
last_is_empty (w ∷ v ∷ ws) = last_is_empty (v ∷ ws)

-- Whole addresses, and those with one `::` after `hi` parts and before `lo`.
whole_parts : List Str → Result ℕ
unfolding first_is_empty last_is_empty hextets_after
whole_parts parts = do
  guard (length parts == 8 && not (first_is_empty parts) && not (last_is_empty parts)) value_error
  hextets_after 0 parts

short_parts : ℕ → List Str → Result ℕ
unfolding first_is_empty last_is_empty hextets_after
short_parts at parts = do
  let lo = length parts - at - 1
  guard (not (first_is_empty parts) || at == 1) value_error
  guard (not (last_is_empty parts) || lo == 1) value_error
  let hi' = if first_is_empty parts then at - 1 else at
  let lo' = if last_is_empty parts then lo - 1 else lo
  guard (ltb (hi' + lo') 8) value_error
  high ← hextets_after 0 (take hi' parts)
  hextets_after (high * 2 ^ (16 * (8 - (hi' + lo'))))
      (drop (length parts - lo') (if lo' == 0 then [] else parts))

by_gaps : List Str → List ℕ → Result ℕ
unfolding whole_parts short_parts
by_gaps parts [] = whole_parts parts
by_gaps parts (at ∷ []) = short_parts at parts
by_gaps parts (a ∷ b ∷ gaps) = err value_error

ipv6_parts : List Str → Result ℕ
unfolding inner_gaps by_gaps
ipv6_parts [] = err value_error
ipv6_parts (w ∷ ws) = do
  guard (leb (length (w ∷ ws)) 9) value_error
  by_gaps (w ∷ ws) (inner_gaps 1 ws)

-- The part before `%`, the scope, which the number leaves out.
without_scope : List Str → Result Str
unfolding is_empty
without_scope [] = err value_error
without_scope (addr ∷ []) = ok addr
without_scope (addr ∷ scope ∷ []) = if is_empty scope then err value_error else ok addr
without_scope (a ∷ b ∷ c ∷ more) = err value_error

-- int(IPv6Address(s))
unfoldable pub ipv6_from_text : Str → Result ℕ
unfolding without_scope expand_tail ipv6_parts
ipv6_from_text s = do
  guard (not (contains b'/' s)) value_error
  addr ← without_scope (split b'%' s)
  guard (leb 3 (length (split b':' addr))) value_error
  parts ← expand_tail (split b':' addr)
  ipv6_parts parts

words16 : ℕ → ℕ → List ℕ
words16 zero n = []
words16 (suc k) n = words16 k (n / 2 ^ 16) ++ (n % 2 ^ 16 ∷ [])

-- How many zeros stand in front.
zeros : List ℕ → ℕ
zeros [] = 0
zeros (n ∷ ns) = let more = zeros ns in if n == 0 then suc more else 0

-- The first of the longest runs of zeros, as its place and length.
longest_run : ℕ → List ℕ → ℕ × ℕ
unfolding zeros
longest_run i [] = (0, 0)
longest_run i (n ∷ ns) =
    let (at, len) = longest_run (i + 1) ns in
    if leb len (zeros (n ∷ ns)) then (i, zeros (n ∷ ns)) else (at, len)

compressed : List ℕ → ℕ → ℕ → Str
unfolding hex_word
compressed ns at len =
    if leb len 1
    then join (b':' ∷ []) (map hex_word ns)
    else join (b':' ∷ []) (map hex_word (take at ns))
      ++ (b':' ∷ b':' ∷ join (b':' ∷ []) (map hex_word (drop (at + len) ns)))

-- str(IPv6Address(n))
unfoldable pub ipv6_text : ℕ → Str
unfolding words16 longest_run compressed
ipv6_text n =
    let words = words16 8 n in compressed words (longest_run 0 words).0 (longest_run 0 words).1

-- An address with bits set below its prefix length makes no network: ValueError.
unfoldable pub network : ℕ → ℕ → ℕ → Result (ℕ × ℕ)
network width address prefixlen = do
  guard (leb prefixlen width) value_error
  guard (address % 2 ^ (width - prefixlen) == 0) value_error
  ok (address, prefixlen)
