-- ===== src/Schema/DataTypes/Lookup.antt =====
-- The dicts of the data types: what a key is looked up as once others have been put.
use finsy.Prelude.{suc, ◌≤◌, ◌<◌, ◌≡◌, refl, ap, sym, ◌∙◌, inl, inr, true, false, some}
use finsy.Prelude.{arith, List, [], ◌∷◌, Str, All, str_eq, str_eq-eq, Bool-cases}
use finsy.Prelude.{==_iff, ok}
use finsy.Schema.DataTypes.{Value, dict, Fields, end, field, count, lookup, put, is_falsy, required}

pub str_eq_refl : (s : Str) → str_eq s s ≡ true
str_eq_refl [] = refl
str_eq_refl (c ∷ s) = rw ((==_iff c c).1 refl, str_eq_refl s) refl

-- No key stands twice in the list.
abbrev pub Distinct : List Str → Type 0
Distinct [] = Unit
Distinct (key ∷ keys) = All (λ other. str_eq key other ≡ false) keys × Distinct keys

pub lookup-put_self :
    (key : Str) (v : Value) (fields : Fields) → lookup key (put key v fields) ≡ some v
lookup-put_self key v end = rw (str_eq_refl key) refl
lookup-put_self key v (field k w fields) = elim (Bool-cases (str_eq key k)) [
  | inl same ↦ rw (same, same) refl
  | inr other ↦ rw (other, other) (lookup-put_self key v fields)
]

pub lookup-put_other :
    (key k : Str) (v : Value) (fields : Fields)
    → str_eq key k ≡ false
    → lookup key (put k v fields) ≡ lookup key fields
lookup-put_other key k v end h = rw h refl
lookup-put_other key k v (field k' w fields) h = elim (Bool-cases (str_eq k k')) [
  | inl same ↦
      let away : str_eq key k' ≡ false = ap (str_eq key) (sym (str_eq-eq k k' same)) ∙ h in
      rw (same, away) refl
  | inr other ↦ rw (other, lookup-put_other key k v fields h) refl
]

pub count-put :
    (key : Str) (v : Value) (fields : Fields) → count (put key v fields) ≤ suc (count fields)
count-put key v end = omega arith
count-put key v (field k w fields) = elim (Bool-cases (str_eq key k)) [
  | inl same ↦ rw same (omega arith)
  | inr other ↦ rw other (omega (arith, count-put key v fields))
]

pub required-lookup :
    (key : Str) (fields : Fields) {v : Value}
    → lookup key fields ≡ some v
    → required key fields ≡ ok v
required-lookup key fields h = rw (h, required) refl

pub pos_count-put : (key : Str) (v : Value) (fields : Fields) → 0 < count (put key v fields)
pos_count-put key v end = omega arith
pos_count-put key v (field k w fields) = elim (Bool-cases (str_eq key k)) [
  | inl same ↦ rw same (omega arith)
  | inr other ↦ rw other (omega arith)
]

-- A dict that has a key is true.
pub is_falsy-count : (fields : Fields) → 0 < count fields → is_falsy (dict fields) ≡ false
is_falsy-count end h = absurd (omega arith)
is_falsy-count (field k w fields) h = refl

pub count-is_falsy : (fields : Fields) → is_falsy (dict fields) ≡ false → 0 < count fields
count-is_falsy end h = cc
count-is_falsy (field k w fields) h = omega arith
