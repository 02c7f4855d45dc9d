-- ===== src/Schema/EntityMap/Claims.antt =====
-- A function from keys to entities, in which an entity claims keys; what P4EntityMap shows as one.
use mathlib.Core.Path.{fun_ext}
use finsy.Prelude.{
  ℕ, ◌≡◌, refl, ap, sym, ◌∙◌, inl, inr, Bool, false, Option, none, some, List, [], ◌∷◌, ◌++◌, Str,
  str_eq, str_eq-eq, ◌==◌, if◌then◌else◌, Bool-cases, Option-cases,
}
use finsy.Prelude.{arith, Error, Result, ok, err, value_error, ◌>>=◌}
use finsy.Schema.EntityMap.{
  EntityMap, Key, id, name, Added, lookup_name, lookup_id, get, and_then, add_name,
}
use finsy.Schema.DataTypes.Lookup.{str_eq_refl}

abbrev pub key_eq : Key → Key → Bool
key_eq (id a) (id b) = a == b
key_eq (name s) (name t) = str_eq s t
key_eq _ _ = false

module _ {A : Type 0} where
  abbrev pub set : Key → A → (Key → Option A) → Key → Option A
  set key a f q = if key_eq q key then some a else f q

  -- The entity takes the keys one after the other; one that is taken is a ValueError.
  unfoldable pub claim : List Key → A → (Key → Option A) → Result (Key → Option A)
  claim [] a f = ok f
  claim (key ∷ keys) a f = elim (f key) [
    | some _ ↦ err value_error
    | none ↦ claim keys a (set key a f)
  ]

  abbrev pub view : EntityMap A → Key → Option A
  view m q = get q m

  -- What a call leaves, as a function.
  abbrev pub forget : Added A → Result (Key → Option A)
  forget (m, ok _) = ok (view m)
  forget (m, err e) = err e

  pub forget-and_then :
      (x : Added A) (rest : EntityMap A → Added A)
      (spec : (Key → Option A) → Result (Key → Option A))
      → ((m : EntityMap A) → forget (rest m) ≡ spec (view m))
      → forget (and_then x rest) ≡ (forget x >>= spec)
  forget-and_then (m, ok _) rest spec h = h m
  forget-and_then (m, err e) rest spec h = refl

  lookup_name-append :
      (key own : Str) (a : A) (entries : List (Str × A))
      → lookup_name own entries ≡ none
      → lookup_name key (entries ++ (own, a) ∷ [])
        ≡ (if str_eq key own then some a else lookup_name key entries)
  lookup_name-append key own a [] h = refl
  lookup_name-append key own a ((k, b) ∷ entries) h = elim (Bool-cases (str_eq own k)) [
    | inl taken ↦ cc (rw taken at h)
    | inr free ↦
        let ih = lookup_name-append key own a entries (rw free at h) in
        elim (Bool-cases (str_eq key k)) [
          | inr other ↦ rw (other, ih) refl
          | inl same ↦
              let away : str_eq key own ≡ false = elim (Bool-cases (str_eq key own)) [
                | inr no_match ↦ no_match
                | inl match ↦
                    let clash = sym (str_eq-eq key own match) ∙ str_eq-eq key k same in
                    cc (ap (str_eq own) (sym clash) ∙ str_eq_refl own, free)
              ] in
              rw (same, away) refl
        ]
  ]

  pub lookup_id-append :
      (key own : ℕ) (a : A) (entries : List (ℕ × A))
      → lookup_id own entries ≡ none
      → lookup_id key (entries ++ (own, a) ∷ [])
        ≡ (if key == own then some a else lookup_id key entries)
  lookup_id-append key own a [] h = refl
  lookup_id-append key own a ((k, b) ∷ entries) h = elim (Bool-cases (own == k)) [
    | inl taken ↦ cc (rw taken at h)
    | inr free ↦
        let ih = lookup_id-append key own a entries (rw free at h) in
        elim (Bool-cases (key == k)) [
          | inr other ↦ rw (other, ih) refl
          | inl same ↦ let away : (key == own) ≡ false = ground arith in rw (same, away) refl
        ]
  ]

  name-view :
      (own : Str) (a : A) (m : EntityMap A)
      → lookup_name own m.by_name ≡ none
      → view (record m { by_name = m.by_name ++ (own, a) ∷ [] }) ≡ set (name own) a (view m)
  unfolding get
  name-view own a m h = fun_ext λ q. at_key q
    where
      at_key :
          (q : Key)
          → get q (record m { by_name = m.by_name ++ (own, a) ∷ [] }) ≡ set (name own) a (view m) q
      at_key (id n) = refl
      at_key (name s) = lookup_name-append s own a m.by_name h

  pub id-view :
      (own : ℕ) (a : A) (m : EntityMap A)
      → lookup_id own m.by_id ≡ none
      → view (record m { by_id = m.by_id ++ (own, a) ∷ [] }) ≡ set (id own) a (view m)
  unfolding get
  id-view own a m h = fun_ext λ q. at_key q
    where
      at_key :
          (q : Key)
          → get q (record m { by_id = m.by_id ++ (own, a) ∷ [] }) ≡ set (id own) a (view m) q
      at_key (id n) = lookup_id-append n own a m.by_id h
      at_key (name s) = refl

  pub forget-add_name :
      (s : Str) (a : A) (m : EntityMap A) → forget (add_name s a m) ≡ claim (name s ∷ []) a (view m)
  unfolding add_name claim get
  forget-add_name s a m = elim (Option-cases (lookup_name s m.by_name)) [
    | inr (b, taken) ↦ rw (taken, add_name, claim) refl
    | inl free ↦
        let grown : add_name s a m ≡ (record m { by_name = m.by_name ++ (s, a) ∷ [] }, ok tt) =
          rw (free, add_name) refl in
        let spec : claim (name s ∷ []) a (view m) ≡ ok (set (name s) a (view m)) =
          rw (free, claim) refl in
        ap forget grown ∙ ap ok (name-view s a m free) ∙ sym spec
  ]

  -- Claims in turn.
  claim-cons :
      (key : Key) (keys : List Key) (a : A) (f : Key → Option A)
      → claim (key ∷ keys) a f ≡ (claim (key ∷ []) a f >>= claim keys a)
  unfolding claim
  claim-cons key keys a f = elim (Option-cases (f key)) [
    | inr (b, taken) ↦ rw (taken, claim) refl
    | inl free ↦ rw (free, claim) refl
  ]

  abbrev refuse : (Key → Option A) → Result (Key → Option A)
  refuse f = err value_error

  claim_error :
      (keys : List Key) (a : A) (f : Key → Option A) → (claim keys a f >>= refuse) ≡ err value_error
  unfolding claim
  claim_error [] a f = refl
  claim_error (key ∷ keys) a f = elim (Option-cases (f key)) [
    | inr (b, taken) ↦ rw (taken, claim) refl
    | inl free ↦ rw (free, claim) (claim_error keys a (set key a f))
  ]

  -- Claiming the ID and the name before the keys of the alias are known is claiming them all.
  pub claim_in_turn :
      (r : Result (List Key)) (i n : Key) (a : A) (f : Key → Option A)
      → ((x : Error) → r ≡ err x → x ≡ value_error)
      → (claim (i ∷ []) a f >>= λ g. claim (n ∷ []) a g >>= λ g. r >>= λ keys. claim keys a g)
        ≡ ((r >>= λ others. ok (i ∷ n ∷ others)) >>= λ keys. claim keys a f)
  unfolding claim
  claim_in_turn (ok others) i n a f h = elim (Option-cases (f i)) [
    | inr (b, taken) ↦ rw (taken, claim) refl
    | inl free ↦ rw (free, claim) (sym (claim-cons n others a (set i a f)))
  ]
  claim_in_turn (err x) i n a f h =
      let same = h x refl in
      elim (Option-cases (f i)) [
        | inr (b, taken) ↦ rw (taken, claim, same) refl
        | inl free ↦ rw (free, claim, same) (claim_error (n ∷ []) a (set i a f))
      ]
