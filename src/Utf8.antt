-- ===== src/Utf8.antt =====
-- Python's `str.encode()` and `bytes.decode()`: strict UTF-8.
use finsy.Prelude.{ℕ, ◌+◌, ◌-◌, ◌*◌, ◌/◌, ◌%◌}
use finsy.Prelude.{Bool, ◌&&◌, not, [], ◌∷◌, ◌++◌, Str, Bytes, ltb, leb}
use finsy.Prelude.{if◌then◌else◌, Result, ok, err, value_error, ◌>>=◌}

-- A surrogate has no encoding: UnicodeEncodeError.
is_surrogate : ℕ → Bool
is_surrogate c = leb 0xD800 c && leb c 0xDFFF

encode_char : ℕ → Bytes
encode_char c =
    if ltb c 0x80
    then c ∷ []
    else if ltb c 0x800
    then (0xC0 + c / 64) ∷ (0x80 + c % 64) ∷ []
    else if ltb c 0x10000
    then (0xE0 + c / 4096) ∷ (0x80 + c / 64 % 64) ∷ (0x80 + c % 64) ∷ []
    else (0xF0 + c / 262144) ∷ (0x80 + c / 4096 % 64) ∷ (0x80 + c / 64 % 64) ∷ (0x80 + c % 64) ∷ []

unfoldable pub encode : Str → Result Bytes
unfolding is_surrogate encode_char
encode [] = ok []
encode (c ∷ s) =
    let rest = encode s in
    if is_surrogate c then err value_error else (do bs ← rest; ok (encode_char c ++ bs))

is_tail : ℕ → Bool
is_tail b = leb 0x80 b && leb b 0xBF

-- A character of 2 to 4 bytes, if its bytes follow and it is the shortest form of a character.
two : ℕ → ℕ → Result ℕ
unfolding is_tail
two a b =
    if leb 0xC2 a && leb a 0xDF && is_tail b
    then ok ((a - 0xC0) * 64 + (b - 0x80))
    else err value_error

three : ℕ → ℕ → ℕ → Result ℕ
unfolding is_tail is_surrogate
three a b c =
    let n = (a - 0xE0) * 4096 + (b - 0x80) * 64 + (c - 0x80) in
    if leb 0xE0 a && leb a 0xEF && is_tail b && is_tail c && leb 0x800 n && not (is_surrogate n)
    then ok n
    else err value_error

four : ℕ → ℕ → ℕ → ℕ → Result ℕ
unfolding is_tail
four a b c d =
    let n = (a - 0xF0) * 262144 + (b - 0x80) * 4096 + (c - 0x80) * 64 + (d - 0x80) in
    if leb 0xF0 a
      && leb a 0xF4
      && is_tail b
      && is_tail c
      && is_tail d
      && leb 0x10000 n
      && leb n 0x10FFFF
    then ok n
    else err value_error

-- The first byte says how many bytes its character has.
unfoldable pub decode : Bytes → Result Str
unfolding two three four
decode [] = ok []
decode (a ∷ []) = if ltb a 0x80 then ok (a ∷ []) else err value_error
decode (a ∷ b ∷ []) =
    let more = decode (b ∷ []) in
    if ltb a 0x80 then (do s ← more; ok (a ∷ s)) else (do n ← two a b; ok (n ∷ []))
decode (a ∷ b ∷ c ∷ []) =
    let one_more = decode (b ∷ c ∷ []) in
    let two_more = decode (c ∷ []) in
    if ltb a 0x80
    then (do s ← one_more; ok (a ∷ s))
    else if ltb a 0xE0
    then (do n ← two a b; s ← two_more; ok (n ∷ s))
    else (do n ← three a b c; ok (n ∷ []))
decode (a ∷ b ∷ c ∷ d ∷ rest) =
    let one_more = decode (b ∷ c ∷ d ∷ rest) in
    let two_more = decode (c ∷ d ∷ rest) in
    let three_more = decode (d ∷ rest) in
    let four_more = decode rest in
    if ltb a 0x80
    then (do s ← one_more; ok (a ∷ s))
    else if ltb a 0xE0
    then (do n ← two a b; s ← two_more; ok (n ∷ s))
    else if ltb a 0xF0
    then (do n ← three a b c; s ← three_more; ok (n ∷ s))
    else (do n ← four a b c d; s ← four_more; ok (n ∷ s))
