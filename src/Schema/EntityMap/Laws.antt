-- ===== src/Schema/EntityMap/Laws.antt =====
-- P4EntityMap implements a function from keys to entities: an entity claims its ID, its name, and its
-- alias or the end of it, each of which no entity has had.
use mathlib.Core.Path.{fun_ext}
use finsy.Prelude.{
  ◌≡◌, refl, ap, sym, ◌∙◌, inl, inr, Bool, true, false, ◌&&◌, Option, none, some, List, [], ◌∷◌,
  ◌++◌, Str, str_eq, if◌then◌else◌, Bool-cases, Option-cases,
}
use finsy.Prelude.{arith, Error, Result, ok, err, value_error, ◌>>=◌}
use finsy.Text.{contains}
use finsy.Schema.EntityMap.{
  Entity, EntityMap, Key, id, name, rsplit_pair, lookup_id, get, add_name, add_suffix, add_alias,
  add_names, empty_map, add, add_all,
}
use finsy.Schema.EntityMap.Aliases.{alias_keys, read_keys, read_keys-alias_keys}
use finsy.Schema.EntityMap.Claims.{
  set, claim, view, forget, forget-and_then, id-view, forget-add_name, claim_in_turn,
}

rsplit_pair_error : (s : Str) {e : Error} → rsplit_pair s ≡ err e → e ≡ value_error
unfolding rsplit_pair
rsplit_pair_error s h = ground arith

read_keys_error :
    (own : Str) (split_suffix : Bool) (alias : Option Str) {x : Error}
    → read_keys own split_suffix alias ≡ err x
    → x ≡ value_error
unfolding read_keys
read_keys_error own split_suffix none h = cc
read_keys_error own split_suffix (some alias) {x} h = elim (Bool-cases (str_eq own alias)) [
  | inr other ↦ cc (rw other at h)
  | inl same ↦ elim (Bool-cases (split_suffix && contains b'.' alias)) [
    | inr whole ↦ cc (rw (same, whole) at h)
    | inl dotted ↦ rsplit_pair_error alias (of_pair (rsplit_pair alias) (rw (same, dotted) at h))
  ]
]
  where
    of_pair :
        (pair : Result (Str × Str))
        → ◌>>=◌ {B = List Key} pair (λ pair. ok (name pair.1 ∷ [])) ≡ err x
        → pair ≡ err x
    of_pair (ok (front, suffix)) h = cc
    of_pair (err y) h = ground arith

module _ {A : Type 0} ⦃e : Entity A⦄ where
  -- The keys of an entity: its ID, its name, and those of its alias.
  unfoldable pub keys_of : A → Bool → Result (List Key)
  unfolding alias_keys
  keys_of a split_suffix = do
    others ← alias_keys (e.name_of a) split_suffix (e.alias_of a)
    ok (id (e.id_of a) ∷ name (e.name_of a) ∷ others)

  forget-add_alias :
      (a : A) (split_suffix : Bool) (alias : Option Str) (m : EntityMap A)
      → forget (add_alias a split_suffix alias m)
        ≡ (read_keys (e.name_of a) split_suffix alias >>= λ keys. claim keys a (view m))
  unfolding add_alias add_suffix read_keys claim
  forget-add_alias a split_suffix none m = refl
  forget-add_alias a split_suffix (some alias) m = elim (Bool-cases (str_eq (e.name_of a) alias)) [
    | inr other ↦ rw other (forget-add_name alias a m)
    | inl same ↦ rw same (forget-own (split_suffix && contains b'.' alias))
  ]
    where
      forget-suffix :
          (pair : Result (Str × Str))
          → forget (add_suffix pair a m)
            ≡ ((pair >>= λ pair. ok (name pair.1 ∷ [])) >>= λ keys. claim keys a (view m))
      forget-suffix (ok (front, suffix)) = forget-add_name suffix a m
      forget-suffix (err x) = refl

      forget-own :
          (b : Bool)
          → forget (if b then add_suffix (rsplit_pair alias) a m else (m, ok tt)) ≡ (
              (if b then (rsplit_pair alias >>= λ pair. ok (name pair.1 ∷ [])) else ok [])
              >>= λ keys. claim keys a (view m))
      forget-own true = forget-suffix (rsplit_pair alias)
      forget-own false = refl

  -- Adding an entity is claiming its keys: it succeeds where they are all free, and raises ValueError
  -- elsewhere.
  forget-add :
      (a : A) (split_suffix : Bool) (m : EntityMap A)
      → forget (add a split_suffix m) ≡ (keys_of a split_suffix >>= λ keys. claim keys a (view m))
  unfolding add add_names keys_of get claim
  forget-add a split_suffix m =
      forget-add_id
      ∙ claim_in_turn (read_keys (e.name_of a) split_suffix (e.alias_of a)) (id (e.id_of a))
          (name (e.name_of a)) a (view m)
          (λ x h. read_keys_error (e.name_of a) split_suffix (e.alias_of a) h)
      ∙ ap
          (λ r. (r >>= λ others. ok (id (e.id_of a) ∷ name (e.name_of a) ∷ others)) >>= λ keys.
            claim keys a (view m))
          (read_keys-alias_keys (e.name_of a) split_suffix (e.alias_of a))
    where
      with_id : EntityMap A → EntityMap A
      with_id m = record m { by_id = m.by_id ++ (e.id_of a, a) ∷ [] }

      names_spec : (Key → Option A) → Result (Key → Option A)
      names_spec f = claim (name (e.name_of a) ∷ []) a f >>= λ g.
          read_keys (e.name_of a) split_suffix (e.alias_of a) >>= λ keys. claim keys a g

      forget-add_names :
          (m : EntityMap A) → forget (add_names a split_suffix m) ≡ names_spec (view m)
      forget-add_names m =
          forget-and_then (add_name (e.name_of a) a m) (add_alias a split_suffix (e.alias_of a))
            (λ g. read_keys (e.name_of a) split_suffix (e.alias_of a) >>= λ keys. claim keys a g)
            (forget-add_alias a split_suffix (e.alias_of a))
          ∙ ap
              (λ x. x >>= λ g.
                read_keys (e.name_of a) split_suffix (e.alias_of a) >>= λ keys. claim keys a g)
              (forget-add_name (e.name_of a) a m)

      forget-add_id :
          forget (add a split_suffix m) ≡ (claim (id (e.id_of a) ∷ []) a (view m) >>= names_spec)
      forget-add_id = elim (Option-cases (lookup_id (e.id_of a) m.by_id)) [
        | inr (b, taken) ↦ rw (taken, add, claim) refl
        | inl free ↦
            let grown : add a split_suffix m ≡ add_names a split_suffix (with_id m) =
              rw (free, add) refl in
            let spec : claim (id (e.id_of a) ∷ []) a (view m)
                ≡ ok (set (id (e.id_of a)) a (view m)) =
              rw (free, claim) refl in
            ap forget grown
            ∙ forget-add_names (with_id m)
            ∙ ap names_spec (id-view (e.id_of a) a m free)
            ∙ ap (λ x. x >>= names_spec) (sym spec)
      ]

  -- The keys of each entity in turn.
  unfoldable pub claim_all : List A → Bool → (Key → Option A) → Result (Key → Option A)
  unfolding keys_of
  claim_all [] split_suffix f = ok f
  claim_all (a ∷ entities) split_suffix f =
      (keys_of a split_suffix >>= λ keys. claim keys a f) >>= claim_all entities split_suffix

  forget-add_all :
      (entities : List A) (split_suffix : Bool) (m : EntityMap A)
      → forget (add_all entities split_suffix m) ≡ claim_all entities split_suffix (view m)
  unfolding add_all claim_all
  forget-add_all [] split_suffix m = refl
  forget-add_all (a ∷ entities) split_suffix m =
      forget-and_then (add a split_suffix m) (add_all entities split_suffix)
        (claim_all entities split_suffix) (forget-add_all entities split_suffix)
      ∙ ap (λ x. x >>= claim_all entities split_suffix) (forget-add a split_suffix m)

  -- A map that is built from a list of entities is, seen from outside, the function in which
  -- every entity has claimed in turn its ID, its name, and its alias where this is not the
  -- name; where it is, and ends are asked for, what stands behind the one dot of the alias. The
  -- construction raises ValueError exactly where a key has been taken, or where an alias whose
  -- end is asked for has more than one dot.
  pub add_all_refines :
      (entities : List A) (split_suffix : Bool)
      → forget (add_all entities split_suffix empty_map)
        ≡ claim_all entities split_suffix (λ q. none)
  unfolding get
  add_all_refines entities split_suffix =
      forget-add_all entities split_suffix empty_map
      ∙ ap (claim_all entities split_suffix) (fun_ext λ q. at_key q)
    where
      at_key : (q : Key) → get {A = A} q empty_map ≡ none
      at_key (id n) = refl
      at_key (name s) = refl
