-- ===== src/GnmiPath/Examples.antt =====
-- The path interfaces/interface[name=eth1]/state, and the theorems about it.
use finsy.Prelude.{
  ◌≡◌, refl, arith, true, some, none, [], ◌∷◌, codes, ok, err, key_error, length, take, drop, List,
  Str,
}
use finsy.Prelude.Int.{pos, negsuc}
use finsy.GnmiPath.{
  Elem, GnmiPath, at_name, elem_at, first, last, find_index, retrieve_key, get_key, key_at,
  has_elem, truediv, rtruediv, with_prefix, slice, bare,
}
use finsy.GnmiPath.Slices.{slice_lem, slice_negative_start}

abbrev name_key : List (Str × Str)
name_key = (codes "name", codes "eth1") ∷ []

abbrev elem : Str → List (Str × Str) → Elem
elem label keys = record { name = label; keys = keys }

abbrev sample : GnmiPath
sample = record {
  elems =
      elem (codes "interfaces") []
      ∷ elem (codes "interface") name_key
      ∷ elem (codes "state") []
      ∷ [];
  origin = [];
  target = [];
}

ends : (first sample ≡ ok (codes "interfaces")) × (last sample ≡ ok (codes "state"))
unfolding first last elem_at
ends = (refl, refl)

found :
    (key_at sample (at_name (codes "interface")) (codes "name") ≡ ok (codes "eth1"))
    × (retrieve_key (codes "name") sample.elems ≡ ok (codes "eth1"))
    × (key_at sample (at_name (codes "state")) (codes "name") ≡ err key_error)
    × (has_elem sample (codes "state") ≡ true)
unfolding key_at elem_at find_index retrieve_key get_key has_elem
found = (refl, refl, refl, refl)

joined :
    (rtruediv sample (truediv sample sample)).elems ≡ (truediv (truediv sample sample) sample).elems
unfolding truediv rtruediv
joined = refl

prefixed : (with_prefix sample [] (codes "t")).target ≡ codes "t"
unfolding with_prefix
prefixed = refl

slice_lem_example :
    (slice sample (some (pos 1)) (some (pos 3)) none ≡ ok (bare (take 2 (drop 1 sample.elems))))
    × (slice (truediv sample sample) none (some (pos (length sample.elems))) none
        ≡ ok (bare sample.elems))
    × (slice (truediv sample sample) (some (pos (length sample.elems))) none none
        ≡ ok (bare sample.elems))
slice_lem_example = slice_lem sample sample 1 3 (omega arith) (omega arith)

last_elem : elem_at sample.elems (negsuc 0) ≡ ok (elem (codes "state") [])
unfolding elem_at
last_elem = refl

slice_negative_start_example :
    slice sample (some (negsuc 0)) none none ≡ ok (bare (elem (codes "state") [] ∷ sample.elems))
slice_negative_start_example = slice_negative_start sample (elem (codes "state") []) last_elem

abbrev new_key : List (Str × Str)
new_key = (codes "name", codes "eth2") ∷ []
