-- ===== src/Text.antt =====
-- Python's `str` as a list of code points: `in`, `split`, `strip`, `join`.
pub mod Number
pub mod Laws
use finsy.Prelude.{ℕ, zero, suc, ◌+◌, Bool, true, false, ◌&&◌, ◌||◌, not, Option, none, some}
use finsy.Prelude.{List, [], ◌∷◌, ◌++◌, Str, leb, ◌==◌, if◌then◌else◌}
use mathlib.Core.List.{reverse}

-- `c in s`, for one character
unfoldable pub contains : ℕ → Str → Bool
contains c [] = false
contains c (x ∷ s) = x == c || contains c s

-- The text starts with `p`: what follows it.
unfoldable pub remove_prefix? : Str → Str → Option Str
remove_prefix? [] s = some s
remove_prefix? (c ∷ p) [] = none
remove_prefix? (c ∷ p) (x ∷ s) = if x == c then remove_prefix? p s else none

-- s.split(c), for one character
push_front : ℕ → List Str → List Str
push_front x [] = (x ∷ []) ∷ []
push_front x (w ∷ ws) = (x ∷ w) ∷ ws

unfoldable pub split : ℕ → Str → List Str
unfolding push_front
split c [] = [] ∷ []
split c (x ∷ s) = let rest = split c s in if x == c then [] ∷ rest else push_front x rest

-- s.split(sep, 1), where `sep in s`: what stands before its first place, and after.
-- `none` where `sep not in s`, which is a list of one text in Python.
abbrev before : ℕ → Option (Str × Str) → Option (Str × Str)
before x none = none
before x (some (front, back)) = some (x ∷ front, back)

unfoldable pub split_once : Str → Str → Option (Str × Str)
split_once sep [] = elim (remove_prefix? sep []) [ none ↦ none | some rest ↦ some ([], rest) ]
split_once sep (x ∷ s) =
    let later = split_once sep s in
    elim (remove_prefix? sep (x ∷ s)) [ none ↦ before x later | some rest ↦ some ([], rest) ]

-- str.isspace, of one character
unfoldable pub is_space : ℕ → Bool
is_space c =
    (leb 9 c && leb c 13)
    || (leb 28 c && leb c 32)
    || c == 0x85
    || c == 0xA0
    || c == 0x1680
    || (leb 0x2000 c && leb c 0x200A)
    || c == 0x2028
    || c == 0x2029
    || c == 0x202F
    || c == 0x205F
    || c == 0x3000

unfoldable pub strip_left : (ℕ → Bool) → Str → Str
strip_left p [] = []
strip_left p (c ∷ s) = if p c then strip_left p s else c ∷ s

unfoldable pub strip_by : (ℕ → Bool) → Str → Str
unfolding strip_left
strip_by p s = reverse (strip_left p (reverse (strip_left p s)))

-- s.strip()
abbrev pub strip : Str → Str
strip = strip_by is_space

-- sep.join(words)
unfoldable pub join : Str → List Str → Str
join sep [] = []
join sep (w ∷ []) = w
join sep (w ∷ v ∷ ws) = w ++ (sep ++ join sep (v ∷ ws))
