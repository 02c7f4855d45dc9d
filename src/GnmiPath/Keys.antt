-- ===== src/GnmiPath/Keys.antt =====
-- Setting the keys of a path, by element and by key.
use finsy.Prelude.{none, some}
use finsy.Prelude.{List, [], Str, ok, err, Option, Result, key_error}
use finsy.GnmiPath.{Elem, GnmiPath, get_key}

-- What `keys[k]` gives for what a lookup of `k` found
abbrev pub found_key : Option Str → Result Str
found_key none = err key_error
found_key (some value) = ok value

-- The value of the key `n` after the keys are set, where it was `was`
abbrev pub newer : List (Str × Str) → Str → Str → Str
newer keys n was = elim (get_key n keys) [ none ↦ was | some value ↦ value ]

abbrev newer_of : List (Str × Str) → Str → Option Str → Option Str
newer_of keys n none = none
newer_of keys n (some was) = some (newer keys n was)

-- The element without its keys
abbrev pub without_keys : Elem → Elem
without_keys e = record e { keys = [] }
