-- ===== src/GnmiPath.antt =====
-- finsy/gnmipath.py: paths of gNMI. A path is immutable: a method returns a new one.
-- The keys of an element are a list of pairs with different names, as in the protobuf map.
pub mod Slices
pub mod Keys
mod Examples
use finsy.Prelude.{
  ℕ, suc, zero, ◌+◌, ◌-◌, ◌/◌, Bool, true, false, ◌||◌, not, Option, none, some, List, [], ◌∷◌,
  ◌++◌, map,
}
use finsy.Prelude.{
  length, get_elem?, ltb, if◌then◌else◌, Str, str_eq, Result, ok, err, ◌>>=◌, ◌>>◌, guard,
}
use finsy.Prelude.{key_error, index_error, value_error, Error}
use finsy.Prelude.Int.{ℤ, pos, negsuc, pos_part, add_ℤ, sub_ℤ}

-- gnmi.PathElem
pub record Elem : Type 0 where
  pub name : Str
  pub keys : List (Str × Str)

-- gnmi.Path, which GNMIPath wraps
pub record GnmiPath : Type 0 where
  pub elems : List Elem
  pub origin : Str
  pub target : Str

or_error {ℓ} : {A : Type ℓ} → Error → Option A → Result A
or_error e none = err e
or_error e (some a) = ok a

-- elem[i], where a negative index counts from the end
unfoldable pub elem_at : List Elem → ℤ → Result Elem
unfolding or_error
elem_at es (pos i) = or_error index_error (get_elem? es i)
elem_at es (negsuc n) =
    if ltb n (length es)
    then or_error index_error (get_elem? es (length es - suc n))
    else err index_error

-- keys.get(k)
unfoldable pub get_key : Str → List (Str × Str) → Option Str
get_key k [] = none
get_key k ((name, value) ∷ keys) = if str_eq name k then some value else get_key k keys

-- _find_index, from index `i` on
find_from : ℕ → Str → List Elem → Result ℕ
find_from i name [] = err key_error
find_from i name (e ∷ es) =
    let rest = find_from (i + 1) name es in if str_eq e.name name then ok i else rest

unfoldable pub find_index : Str → List Elem → Result ℕ
unfolding find_from
find_index name es = find_from 0 name es

-- _retrieve_key
unfoldable pub retrieve_key : Str → List Elem → Result Str
retrieve_key k [] = err key_error
retrieve_key k (e ∷ es) = elim (get_key k e.keys) [
  | none ↦ retrieve_key k es
  | some value ↦ ok value
]

unfoldable pub first : GnmiPath → Result Str
first p = do e ← elem_at p.elems (pos 0); ok e.name

unfoldable pub last : GnmiPath → Result Str
last p = do e ← elem_at p.elems (negsuc 0); ok e.name

-- GNMIPath(path, origin=…, target=…) of a path: an empty argument changes nothing.
abbrev unless_empty : Str → Str → Str
unless_empty [] old = old
unless_empty (c ∷ s) old = c ∷ s

unfoldable pub with_prefix : GnmiPath → Str → Str → GnmiPath
with_prefix p origin target = record p {
  origin = unless_empty origin p.origin;
  target = unless_empty target p.target;
}

-- An element is given by its index or by its name.
pub data Place : Type 0 where
  at_index : ℤ → Place
  at_name : Str → Place

place_index : Place → List Elem → Result ℤ
unfolding find_index
place_index (at_index i) es = ok i
place_index (at_name n) es = do i ← find_index n es; ok (pos i)

-- path[index], path[key], path[place, key]
unfoldable pub name_at : GnmiPath → ℤ → Result Str
name_at p i = do e ← elem_at p.elems i; ok e.name

unfoldable pub key_at : GnmiPath → Place → Str → Result Str
unfolding place_index or_error
key_at p place k = do
  i ← place_index place p.elems
  e ← elem_at p.elems i
  or_error key_error (get_key k e.keys)

-- The list with its element at index `i` replaced: IndexError out of range
replace_at : ℕ → (Elem → Elem) → List Elem → List Elem
replace_at i f [] = []
replace_at zero f (e ∷ es) = f e ∷ es
replace_at (suc i) f (e ∷ es) = e ∷ replace_at i f es

natural_index : List Elem → ℤ → ℕ
natural_index es (pos i) = i
natural_index es (negsuc n) = length es - suc n

with_keys : List (Str × Str) → Elem → Elem
with_keys keys e = record e { keys = keys }

-- set(elem, **keys), where `elem` is given
unfoldable pub set : GnmiPath → Place → List (Str × Str) → Result GnmiPath
unfolding place_index replace_at natural_index with_keys
set p place keys = do
  i ← place_index place p.elems
  elem_at p.elems i >>= λ _.
      ok (record p { elems = replace_at (natural_index p.elems i) (with_keys keys) p.elems })

-- _rekey: the keys that an element has are given their new values.
new_value : List (Str × Str) → Str × Str → Str × Str
new_value keys (k, old) = elim (get_key k keys) [ none ↦ (k, old) | some value ↦ (k, value) ]

has_any : List (Str × Str) → List (Str × Str) → Bool
has_any keys [] = false
has_any keys ((k, old) ∷ more) = elim (get_key k keys) [
  | none ↦ has_any keys more
  | some value ↦ true
]

any_elem : List (Str × Str) → List Elem → Bool
unfolding has_any
any_elem keys [] = false
any_elem keys (e ∷ es) = has_any keys e.keys || any_elem keys es

rekey_elem : List (Str × Str) → Elem → Elem
unfolding new_value
rekey_elem keys e = record e { keys = map (new_value keys) e.keys }

is_empty : List (Str × Str) → Bool
is_empty [] = true
is_empty (k ∷ keys) = false

unfoldable pub rekey : GnmiPath → List (Str × Str) → Result GnmiPath
unfolding any_elem rekey_elem is_empty
rekey p keys = do
  guard (not (is_empty keys)) value_error
  guard (any_elem keys p.elems) value_error
  ok (record p { elems = map (rekey_elem keys) p.elems })

-- name in path
unfoldable pub has_elem : GnmiPath → Str → Bool
unfolding find_index
has_elem p n = elim (find_index n p.elems) [ ok _ ↦ true | err _ ↦ false ]

-- path / rhs, and lhs / path for a text that is parsed to `lhs`
unfoldable pub truediv : GnmiPath → GnmiPath → GnmiPath
truediv p rhs = record p { elems = p.elems ++ rhs.elems }

abbrev pub bare : List Elem → GnmiPath
bare es = record { elems = es; origin = []; target = [] }

unfoldable pub rtruediv : GnmiPath → GnmiPath → GnmiPath
rtruediv p lhs = bare (lhs.elems ++ p.elems)

-- range(start, stop, step)
unfoldable pub range_list : ℤ → ℤ → ℕ → List ℤ
range_list start step zero = []
range_list start step (suc n) = start ∷ range_list (add_ℤ start step) step n

range_length : ℤ → ℤ → ℤ → Result ℕ
range_length start stop (pos zero) = err value_error
range_length start stop (pos (suc k)) = ok ((pos_part (sub_ℤ stop start) + k) / suc k)
range_length start stop (negsuc k) = ok ((pos_part (sub_ℤ start stop) + k) / suc k)

unfoldable pub elems_at : List Elem → List ℤ → Result (List Elem)
elems_at es [] = ok []
elems_at es (i ∷ is) = do e ← elem_at es i; rest ← elems_at es is; ok (e ∷ rest)

abbrev or_default : ℤ → Option ℤ → ℤ
or_default d none = d
or_default d (some i) = i

stop_index : ℕ → Option ℤ → ℤ
stop_index n none = pos n
stop_index n (some (pos i)) = pos i
stop_index n (some (negsuc i)) = add_ℤ (pos n) (negsuc i)

-- _slice
unfoldable pub slice : GnmiPath → Option ℤ → Option ℤ → Option ℤ → Result GnmiPath
unfolding range_length stop_index
slice p start stop step = do
  let low = or_default (pos 0) start
  let by = or_default (pos 1) step
  n ← range_length low (stop_index (length p.elems) stop) by
  es ← elems_at p.elems (range_list low by n)
  ok (bare es)
