-- ===== src/Schema/EntityMap.antt =====
-- finsy/p4schema.py: P4EntityMap, the entities of one kind by ID and by name.
pub mod Aliases
pub mod Claims
pub mod Laws
pub mod Indexed
pub mod Suggestions
mod Examples
use finsy.Prelude.{
  ℕ, Bool, true, false, ◌&&◌, ◌||◌, not, Option, none, some, List, [], ◌∷◌, ◌++◌, Str, codes,
  length, str_eq, ◌==◌, if◌then◌else◌, ltb,
}
use finsy.Prelude.{Result, ok, err, value_error}
use finsy.EditDistance.{minimum_edit_distance}
use finsy.Text.{contains, split_once}

-- What the message of a ValueError tells: no ID, no entities at all, or the names suggested.
pub data Complaint : Type 0 where
  no_such_id none_present : Complaint
  did_you_mean : List Str → Complaint

-- What an entity shows of itself; not every kind has an alias.
pub record Entity (A : Type 0) : Type 0 where
  pub id_of : A → ℕ
  pub name_of : A → Str
  pub alias_of : A → Option Str

pub record EntityMap (A : Type 0) : Type 0 where
  pub by_name : List (Str × A)
  pub by_id : List (ℕ × A)

-- An argument `key` is an `int` or a `str`.
pub data Key : Type 0 where
  id : ℕ → Key
  name : Str → Key

-- `alias.rsplit(".", 2)` has to give two parts, to be unpacked.
unfoldable pub rsplit_pair : Str → Result (Str × Str)
rsplit_pair alias = elim (split_once (codes ".") alias) [
  | none ↦ err value_error
  | some (front, back) ↦ if contains b'.' back then err value_error else ok (front, back)
]

-- The map that a call leaves, and how the call ended.
abbrev pub Added : Type 0 → Type 0
Added A = EntityMap A × Result (Unit {0})

module _ {A : Type 0} where
  abbrev pub lookup_name : Str → List (Str × A) → Option A
  lookup_name key [] = none
  lookup_name key ((k, a) ∷ entries) = if str_eq key k then some a else lookup_name key entries

  abbrev pub lookup_id : ℕ → List (ℕ × A) → Option A
  lookup_id key [] = none
  lookup_id key ((k, a) ∷ entries) = if key == k then some a else lookup_id key entries

  abbrev pub empty_map : EntityMap A
  empty_map = record { by_name = []; by_id = [] }

  unfoldable pub get : Key → EntityMap A → Option A
  get (id n) m = lookup_id n m.by_id
  get (name s) m = lookup_name s m.by_name

  -- `_key_error` always raises ValueError.
  unfoldable pub get_item : Key → EntityMap A → Result A
  get_item key m = elim (get key m) [ none ↦ err value_error | some a ↦ ok a ]

  abbrev values : List (ℕ × A) → List A
  values [] = []
  values ((k, a) ∷ entries) = a ∷ values entries

  -- __iter__ and __len__
  unfoldable pub iter : EntityMap A → List A
  iter m = values m.by_id

  unfoldable pub len : EntityMap A → ℕ
  len m = length m.by_id

  -- What stands after a call that may raise.
  abbrev pub and_then : Added A → (EntityMap A → Added A) → Added A
  and_then (m, err e) rest = (m, err e)
  and_then (m, ok _) rest = rest m

  unfoldable pub add_name : Str → A → EntityMap A → Added A
  add_name key entity m = elim (lookup_name key m.by_name) [
    | some _ ↦ (m, err value_error)
    | none ↦ (record m { by_name = m.by_name ++ (key, entity) ∷ [] }, ok tt)
  ]

  unfoldable pub add_suffix : Result (Str × Str) → A → EntityMap A → Added A
  add_suffix (err e) entity m = (m, err e)
  add_suffix (ok (_, suffix)) entity m = add_name suffix entity m

  module _ ⦃e : Entity A⦄ where
    unfoldable pub add_alias : A → Bool → Option Str → EntityMap A → Added A
    add_alias entity split_suffix none m = (m, ok tt)
    add_alias entity split_suffix (some alias) m =
        if not (str_eq (e.name_of entity) alias)
        then add_name alias entity m
        else if split_suffix && contains b'.' alias
        then add_suffix (rsplit_pair alias) entity m
        else (m, ok tt)

    unfoldable pub add_names : A → Bool → EntityMap A → Added A
    add_names entity split_suffix m =
        and_then (add_name (e.name_of entity) entity m)
          (add_alias entity split_suffix (e.alias_of entity))

    unfoldable pub add : A → Bool → EntityMap A → Added A
    add entity split_suffix m = elim (lookup_id (e.id_of entity) m.by_id) [
      | some _ ↦ (m, err value_error)
      | none ↦
          add_names entity split_suffix
            (record m { by_id = m.by_id ++ (e.id_of entity, entity) ∷ [] })
    ]

    -- The loops of the constructors: the first error ends them.
    unfoldable pub add_all : List A → Bool → EntityMap A → Added A
    add_all [] split_suffix m = (m, ok tt)
    add_all (entity ∷ entities) split_suffix m =
        and_then (add entity split_suffix m) (add_all entities split_suffix)

-- val.endswith(suffix)
unfoldable pub ends_with : Str → Str → Bool
ends_with suffix [] = str_eq suffix []
ends_with suffix (c ∷ s) = str_eq suffix (c ∷ s) || ends_with suffix s

unfoldable pub matching : Str → List Str → List Str
matching suffix [] = []
matching suffix (s ∷ names) =
    if ends_with suffix s then s ∷ matching suffix names else matching suffix names

-- min(names, key=_lev): of equal distances the first.
unfoldable pub nearest : Str → Str → List Str → Str
nearest key best [] = best
nearest key best (s ∷ names) =
    if ltb (minimum_edit_distance s key) (minimum_edit_distance best key)
    then nearest key s names
    else nearest key best names

unfoldable pub or_nearest : List Str → Str → Str → List Str → List Str
or_nearest [] key first others = nearest key first others ∷ []
or_nearest (s ∷ found) key first others = s ∷ found

unfoldable pub suggest : Str → List Str → Complaint
suggest key [] = none_present
suggest key (first ∷ others) =
    did_you_mean (or_nearest (matching (codes "." ++ key) (first ∷ others)) key first others)

abbrev pub names {ℓ} : {A : Type ℓ} → List (Str × A) → List Str
names [] = []
names ((key, a) ∷ entries) = key ∷ names entries

unfoldable pub key_error : {A : Type 0} → Key → EntityMap A → Complaint
key_error (id n) m = no_such_id
key_error (name key) m = suggest key (names m.by_name)
