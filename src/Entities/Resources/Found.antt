-- ===== src/Entities/Resources/Found.antt =====
-- Resources that are found by name, and found again by number and by alias.
use finsy.Prelude.{
  ℕ, ◌<◌, ◌≡◌, refl, ap, sym, subst, ◌∙◌, Option, none, some, [], ◌∷◌, Str, length, ne→==_false,
}
use finsy.Prelude.{arith, Result, ok, >>=-eq-ok, ◌>>=◌}
use finsy.Schema.EntityMap.{EntityMap, Key, id, name, get, get_item}
use finsy.Schema.EntityMap.Indexed.{IsIndexed, get-IsIndexed}
use finsy.Entities.Actions.{get_item_inv, get_item-get}
use finsy.Entities.Resources.{Resource, resource_entity, find_named, find_numbered}

-- The resources of one kind: they are found by their IDs, which are not 0, and by their aliases, which are
-- not empty.
pub record AreResources {T : Type 0} (m : EntityMap (Resource T)) : Type 0 where
  pub indexed : IsIndexed m
  pub numbered : (key : Key) (r : Resource T) → get key m ≡ some r → 0 < r.id
  pub named : (key : Key) (r : Resource T) → get key m ≡ some r → 0 < length r.alias
  pub aliased : (key : Key) (r : Resource T) → get key m ≡ some r → get (name r.alias) m ≡ some r

-- What stands for a resource in a message and in an entry
abbrev pub number_of : {T : Type 0} → Option (Resource T) → ℕ
number_of none = 0
number_of (some r) = r.id

abbrev pub alias_of : {T : Type 0} → Option (Resource T) → Str
alias_of none = []
alias_of (some r) = r.alias

abbrev IsFoundAgain : {T : Type 0} → EntityMap (Resource T) → Option (Resource T) → Type 0
IsFoundAgain m r = (find_numbered m (number_of r) ≡ ok r) × (find_named m (alias_of r) ≡ ok r)

module _ {T : Type 0} where
  found_by_alias :
      (m : EntityMap (Resource T)) (r : Resource T) (s : Str)
      → 0 < length s
      → get_item (name s) m ≡ ok r
      → find_named m s ≡ ok (some r)
  unfolding find_named
  found_by_alias m r [] h found = absurd (omega arith)
  found_by_alias m r (c ∷ s) h found = rw found refl

  resource_again :
      (m : EntityMap (Resource T)) (key : Key) (r : Resource T)
      → AreResources m
      → get key m ≡ some r
      → IsFoundAgain m (some r)
  unfolding find_numbered
  resource_again m key r h found =
      let by_id = get_item-get (id r.id) m (get-IsIndexed key m h.indexed found) in
      let by_alias = get_item-get (name r.alias) m (h.aliased key r found) in
      (
        rw (ne→==_false r.id (h.numbered key r found), by_id) refl,
        found_by_alias m r r.alias (h.named key r found) by_alias,
      )

  find_again :
      (m : EntityMap (Resource T)) (s : Str) {r : Option (Resource T)}
      → AreResources m
      → find_named m s ≡ ok r
      → IsFoundAgain m r
  unfolding find_named find_numbered
  find_again m [] {r} h e =
      let same : r ≡ none = ground arith in subst (IsFoundAgain m) (sym same) (refl, refl)
  find_again m (c ∷ s) {r} h e =
      let (r', item, e1) = >>=-eq-ok (get_item (name (c ∷ s)) m) _ e in
      let same : r ≡ some r' = ground arith in
      subst (IsFoundAgain m) (sym same)
        (resource_again m (name (c ∷ s)) r' h (get_item_inv (name (c ∷ s)) m item))

  -- A codec of entries whose parts are decoded and encoded again, at the resource that is found
  module _ {E M : Type 0} (to_message : Option (Resource T) → E → Result M)
      (of_message : Option (Resource T) → M → Result E) (key : E → Str) (number : M → ℕ) where
    pub record HasParts (r : Option (Resource T)) (m : M) : Type 0 where
      pub entry : E
      pub numbered : number m ≡ number_of r
      pub aliased : key entry ≡ alias_of r
      pub decoded : of_message r m ≡ ok entry
      pub again : to_message r entry ≡ ok m

    pub entry_again :
        (map : EntityMap (Resource T)) (e : E) {m : M}
        → AreResources map
        → ((r : Option (Resource T)) (m : M)
            → find_named map (key e) ≡ ok r
            → to_message r e ≡ ok m
            → HasParts r m)
        → (find_named map (key e) >>= (λ r. to_message r e)) ≡ ok m
        → (e' : E) × ((find_numbered map (number m) >>= (λ r. of_message r m)) ≡ ok e')
          × ((find_named map (key e') >>= (λ r. to_message r e')) ≡ ok m)
    entry_again map e {m} h parts sent =
        let (r, found, e1) = >>=-eq-ok (find_named map (key e)) _ sent in
        let p = parts r m found e1 in
        let (by_number, by_alias) = find_again map (key e) h found in
        (
          p.entry,
          rw (p.numbered, by_number, p.decoded) refl,
          rw (p.aliased, by_alias, p.again) refl,
        )

-- A resource that is found under a name is in the map.
pub find_named-get :
    {T : Type 0} (m : EntityMap (Resource T)) (s : Str) {r : Resource T}
    → find_named m s ≡ ok (some r)
    → get (name s) m ≡ some r
unfolding find_named
find_named-get m [] e = cc
find_named-get m (c ∷ s) {r} e =
    let (r', item, e1) = >>=-eq-ok (get_item (name (c ∷ s)) m) _ e in
    let same : r' ≡ r = ground arith in get_item_inv (name (c ∷ s)) m (item ∙ ap ok same)
