-- ===== src/Schema/EntityMap/Indexed.antt =====
-- Whatever is added to a P4EntityMap, each entity that a key finds is found by its own ID.
use finsy.Prelude.{
  ℕ, ◌≡◌, refl, ◌∙◌, subst, inl, inr, Bool, ◌&&◌, Option, none, some, List, [], ◌∷◌, ◌++◌, Str, All,
  All-append, str_eq, ◌==◌, ==_iff, Bool-cases, Option-cases, Result, ok, err, arith,
}
use finsy.Text.{contains}
use finsy.Schema.EntityMap.{
  Entity, EntityMap, Key, id, name, Added, rsplit_pair, lookup_name, lookup_id, get, and_then,
  add_name, add_suffix, add_alias, add_names, add, add_all, empty_map,
}
use finsy.Schema.EntityMap.Claims.{lookup_id-append}

All-map {ℓ} :
    {B : Type ℓ} {P Q : B → Type 0} → ((b : B) → P b → Q b) → (bs : List B) → All P bs → All Q bs
All-map f [] h = tt
All-map f (b ∷ bs) (here, h) = (f b here, All-map f bs h)

module _ {A : Type 0} where
  lookup_id-append_some :
      (key : ℕ) {a : A} (entries others : List (ℕ × A))
      → lookup_id key entries ≡ some a
      → lookup_id key (entries ++ others) ≡ some a
  lookup_id-append_some key [] others h = cc
  lookup_id-append_some key ((k, b) ∷ entries) others h = elim (Bool-cases (key == k)) [
    | inl same ↦ rw same (rw same at h)
    | inr other ↦ rw other (lookup_id-append_some key entries others (rw other at h))
  ]

  lookup_id-All :
      (P : A → Type 0) (key : ℕ) {a : A} (entries : List (ℕ × A))
      → All (λ entry. P entry.1) entries
      → lookup_id key entries ≡ some a
      → P a
  lookup_id-All P key [] h e = cc
  lookup_id-All P key {a} ((k, b) ∷ entries) (here, h) e = elim (Bool-cases (key == k)) [
    | inl same ↦ let own : b ≡ a = ground (arith, rw same at e) in subst P own here
    | inr other ↦ lookup_id-All P key entries h (rw other at e)
  ]

  lookup_name-All :
      (P : A → Type 0) (key : Str) {a : A} (entries : List (Str × A))
      → All (λ entry. P entry.1) entries
      → lookup_name key entries ≡ some a
      → P a
  lookup_name-All P key [] h e = cc
  lookup_name-All P key {a} ((k, b) ∷ entries) (here, h) e = elim (Bool-cases (str_eq key k)) [
    | inl same ↦ let own : b ≡ a = ground (arith, rw same at e) in subst P own here
    | inr other ↦ lookup_name-All P key entries h (rw other at e)
  ]

  -- What holds of every entity holds of one that a key finds.
  pub get-All :
      (P : A → Type 0) (key : Key) (m : EntityMap A) {a : A}
      → All (λ entry. P entry.1) m.by_id
      → All (λ entry. P entry.1) m.by_name
      → get key m ≡ some a
      → P a
  unfolding get
  get-All P (id n) m h k found = lookup_id-All P n m.by_id h found
  get-All P (name s) m h k found = lookup_name-All P s m.by_name k found

  module _ ⦃e : Entity A⦄ where
    -- The entity is found by its own ID.
    abbrev pub IsFound : EntityMap A → A → Type 0
    IsFound m a = lookup_id (e.id_of a) m.by_id ≡ some a

    pub record IsIndexed (m : EntityMap A) : Type 0 where
      pub ids : All (λ entry. IsFound m entry.1) m.by_id
      pub names : All (λ entry. IsFound m entry.1) m.by_name

    add_name-IsIndexed :
        (s : Str) (a : A) (m : EntityMap A)
        → IsIndexed m
        → IsFound m a
        → IsIndexed (add_name s a m).0 × IsFound (add_name s a m).0 a
    unfolding add_name
    add_name-IsIndexed s a m h found = elim (Option-cases (lookup_name s m.by_name)) [
      | inr (b, taken) ↦ rw (taken, add_name) (h, found)
      | inl free ↦
          rw (free, add_name)
            (
              record {
                ids = h.ids;
                names = All-append _ m.by_name ((s, a) ∷ []) h.names (found, tt);
              },
              found,
            )
    ]

    add_alias-IsIndexed :
        (a : A) (split_suffix : Bool) (alias : Option Str) (m : EntityMap A)
        → IsIndexed m
        → IsFound m a
        → IsIndexed (add_alias a split_suffix alias m).0
    unfolding add_alias add_suffix
    add_alias-IsIndexed a split_suffix none m h found = h
    add_alias-IsIndexed a split_suffix (some alias) m h found =
        elim (Bool-cases (str_eq (e.name_of a) alias)) [
          | inr other ↦ rw other (add_name-IsIndexed alias a m h found).0
          | inl same ↦ elim (Bool-cases (split_suffix && contains b'.' alias)) [
            | inr whole ↦ rw (same, whole) h
            | inl dotted ↦ rw (same, dotted) (of_pair (rsplit_pair alias))
          ]
        ]
      where
        of_pair : (pair : Result (Str × Str)) → IsIndexed (add_suffix pair a m).0
        of_pair (ok (front, suffix)) = (add_name-IsIndexed suffix a m h found).0
        of_pair (err x) = h

    add_names-IsIndexed :
        (a : A) (split_suffix : Bool) (m : EntityMap A)
        → IsIndexed m
        → IsFound m a
        → IsIndexed (add_names a split_suffix m).0
    unfolding add_names
    add_names-IsIndexed a split_suffix m h found =
        of_added (add_name (e.name_of a) a m) (add_name-IsIndexed (e.name_of a) a m h found)
      where
        of_added :
            (x : Added A)
            → IsIndexed x.0 × IsFound x.0 a
            → IsIndexed (and_then x (add_alias a split_suffix (e.alias_of a))).0
        of_added (m, ok _) (h, found) = add_alias-IsIndexed a split_suffix (e.alias_of a) m h found
        of_added (m, err x) (h, found) = h

    -- An addition keeps the index, whether it succeeds or raises.
    add-IsIndexed :
        (a : A) (split_suffix : Bool) (m : EntityMap A)
        → IsIndexed m
        → IsIndexed (add a split_suffix m).0
    unfolding add
    add-IsIndexed a split_suffix m h = elim (Option-cases (lookup_id (e.id_of a) m.by_id)) [
      | inr (b, taken) ↦ rw (taken, add) h
      | inl free ↦
          let grown = m.by_id ++ (e.id_of a, a) ∷ [] in
          let found : lookup_id (e.id_of a) grown ≡ some a =
            lookup_id-append (e.id_of a) (e.id_of a) a m.by_id free
            ∙ rw ((==_iff (e.id_of a) (e.id_of a)).1 refl) refl in
          let kept : (b : A) → IsFound m b → lookup_id (e.id_of b) grown ≡ some b =
            λ b old. lookup_id-append_some (e.id_of b) m.by_id ((e.id_of a, a) ∷ []) old in
          rw (free, add)
            (add_names-IsIndexed a split_suffix (record m { by_id = grown })
              (record {
                ids =
                    All-append _ m.by_id ((e.id_of a, a) ∷ [])
                      (All-map (λ entry old. kept entry.1 old) m.by_id h.ids) (found, tt);
                names = All-map (λ entry old. kept entry.1 old) m.by_name h.names;
              })
              found)
    ]

    and_then-IsIndexed :
        (x : Added A) (rest : EntityMap A → Added A)
        → IsIndexed x.0
        → ((m : EntityMap A) → IsIndexed m → IsIndexed (rest m).0)
        → IsIndexed (and_then x rest).0
    and_then-IsIndexed (m, ok _) rest h k = k m h
    and_then-IsIndexed (m, err x) rest h k = h

    add_all-IsIndexed :
        (entities : List A) (split_suffix : Bool) (m : EntityMap A)
        → IsIndexed m
        → IsIndexed (add_all entities split_suffix m).0
    unfolding add_all
    add_all-IsIndexed [] split_suffix m h = h
    add_all-IsIndexed (a ∷ entities) split_suffix m h =
        and_then-IsIndexed (add a split_suffix m) (add_all entities split_suffix)
          (add-IsIndexed a split_suffix m h) (λ m h. add_all-IsIndexed entities split_suffix m h)

    pub get-IsIndexed :
        (key : Key) (m : EntityMap A) {a : A}
        → IsIndexed m
        → get key m ≡ some a
        → get (id (e.id_of a)) m ≡ some a
    unfolding get
    get-IsIndexed key m h found = get-All (IsFound m) key m h.ids h.names found

    -- However many entities were added, and whether or not the last addition raised: an entity that
    -- a key finds is found by its own ID.
    pub get-add_all :
        (entities : List A) (split_suffix : Bool) (key : Key) {a : A}
        → get key (add_all entities split_suffix empty_map).0 ≡ some a
        → get (id (e.id_of a)) (add_all entities split_suffix empty_map).0 ≡ some a
    get-add_all entities split_suffix key found =
        get-IsIndexed key (add_all entities split_suffix empty_map).0
          (add_all-IsIndexed entities split_suffix empty_map (record { ids = tt; names = tt }))
          found
