-- ===== src/Schema/EntityMap/Suggestions.antt =====
-- The names that P4EntityMap suggests for one that it does not have.
use finsy.Prelude.{
  ℕ, ◌≤◌, ◌≡◌, refl, subst, sym, ◌∙◌, ap, inl, inr, true, false, List, [], ◌∷◌, ◌++◌, Str, codes,
  All, ltb, ltb→lt, Bool-cases, arith, str_eq, str_eq-eq,
}
use finsy.Schema.DataTypes.Lookup.{str_eq_refl}
use finsy.EditDistance.{minimum_edit_distance}
use finsy.Schema.EntityMap.{
  name, names, Complaint, did_you_mean, ends_with, matching, nearest, or_nearest, suggest,
  key_error,
}

-- The text ends with the suffix.
abbrev pub Ends : Str → Str → Type 0
Ends suffix s = (front : Str) × (s ≡ front ++ suffix)

ends_with-Ends : (suffix s : Str) → ends_with suffix s ≡ true → Ends suffix s
unfolding ends_with
ends_with-Ends suffix [] h = ([], sym (str_eq-eq suffix [] h))
ends_with-Ends suffix (c ∷ s) h = elim (Bool-cases (str_eq suffix (c ∷ s))) [
  | inl whole ↦ ([], sym (str_eq-eq suffix (c ∷ s) whole))
  | inr other ↦
      let (front, same) = ends_with-Ends suffix s (rw (other, ends_with) at h) in
      (c ∷ front, ap (λ s. c ∷ s) same)
]

ends_with-append : (suffix front : Str) → ends_with suffix (front ++ suffix) ≡ true
unfolding ends_with
ends_with-append [] [] = str_eq_refl []
ends_with-append (c ∷ suffix) [] = rw (str_eq_refl (c ∷ suffix), ends_with) refl
ends_with-append suffix (c ∷ front) = elim (Bool-cases (str_eq suffix (c ∷ front ++ suffix))) [
  | inl whole ↦ rw (whole, ends_with) refl
  | inr other ↦ rw (other, ends_with) (ends_with-append suffix front)
]

not-Ends : (suffix s : Str) → ends_with suffix s ≡ false → ¬ Ends suffix s
not-Ends suffix s no_match (front, same) =
    cc (ap (ends_with suffix) same ∙ ends_with-append suffix front, no_match)

-- The names that end with the suffix, in the order of the names
pub data Ending (suffix : Str) : List Str → List Str → Type 0 where
  none_left : Ending suffix [] []
  taken :
      {s : Str} {texts found : List Str}
      → Ends suffix s
      → Ending suffix texts found
      → Ending suffix (s ∷ texts) (s ∷ found)
  passed :
      {s : Str} {texts found : List Str}
      → ¬ Ends suffix s
      → Ending suffix texts found
      → Ending suffix (s ∷ texts) found

-- The name is in the list, and no name is nearer to the key.
pub data IsIn (best : Str) : List Str → Type 0 where
  here : {texts : List Str} → IsIn best (best ∷ texts)
  there : {s : Str} {texts : List Str} → IsIn best texts → IsIn best (s ∷ texts)

abbrev pub IsNearest : Str → List Str → Str → Type 0
IsNearest key texts best =
    IsIn best texts × All (λ s. minimum_edit_distance best key ≤ minimum_edit_distance s key) texts

-- The names that end with the key after a dot, if there are any, and else a nearest one
pub data IsSuggestion (key : Str) (texts : List Str) : Complaint → Type 0 where
  by_ending :
      {s : Str} {found : List Str}
      → Ending (codes "." ++ key) texts (s ∷ found)
      → IsSuggestion key texts (did_you_mean (s ∷ found))
  by_distance :
      {best : Str}
      → Ending (codes "." ++ key) texts []
      → IsNearest key texts best
      → IsSuggestion key texts (did_you_mean (best ∷ []))

matching-Ending : (suffix : Str) (texts : List Str) → Ending suffix texts (matching suffix texts)
unfolding matching
matching-Ending suffix [] = none_left
matching-Ending suffix (s ∷ texts) = elim (Bool-cases (ends_with suffix s)) [
  | inl found ↦
      let same : matching suffix (s ∷ texts) ≡ s ∷ matching suffix texts =
        rw (found, matching) refl in
      subst (Ending suffix (s ∷ texts)) (sym same)
        (taken (ends_with-Ends suffix s found) (matching-Ending suffix texts))
  | inr no_match ↦
      let same : matching suffix (s ∷ texts) ≡ matching suffix texts =
        rw (no_match, matching) refl in
      subst (Ending suffix (s ∷ texts)) (sym same)
        (passed (not-Ends suffix s no_match) (matching-Ending suffix texts))
]

further-IsNearest :
    (key best s t : Str) (texts : List Str)
    → minimum_edit_distance t key ≤ minimum_edit_distance s key
    → IsNearest key (t ∷ texts) best
    → IsNearest key (s ∷ t ∷ texts) best
further-IsNearest key best s t texts le (in_texts, (of_t, rest)) =
    (there in_texts, (omega (arith, le, of_t), (of_t, rest)))

swapped-IsNearest :
    (key best s t : Str) (texts : List Str)
    → minimum_edit_distance s key ≤ minimum_edit_distance t key
    → IsNearest key (s ∷ texts) best
    → IsNearest key (s ∷ t ∷ texts) best
swapped-IsNearest key best s t texts le (here, (of_s, rest)) =
    (here, (of_s, (omega (arith, le, of_s), rest)))
swapped-IsNearest key best s t texts le (there in_texts, (of_s, rest)) =
    (there (there in_texts), (of_s, (omega (arith, le, of_s), rest)))

nearest-IsNearest :
    (key best : Str) (texts : List Str) → IsNearest key (best ∷ texts) (nearest key best texts)
unfolding nearest
nearest-IsNearest key best [] = (here, (omega arith, tt))
nearest-IsNearest key best (s ∷ texts) =
    elim (Bool-cases (ltb (minimum_edit_distance s key) (minimum_edit_distance best key))) [
      | inl nearer ↦
          let same : nearest key best (s ∷ texts) ≡ nearest key s texts =
            rw (nearer, nearest) refl in
          let less = ltb→lt _ _ nearer in
          subst (IsNearest key (best ∷ s ∷ texts)) (sym same) (
            further-IsNearest key _ best s texts (omega (arith, less))
              (nearest-IsNearest key s texts))
      | inr not_nearer ↦
          let same : nearest key best (s ∷ texts) ≡ nearest key best texts =
            rw (not_nearer, nearest) refl in
          let least : minimum_edit_distance best key ≤ minimum_edit_distance s key = ground arith in
          subst (IsNearest key (best ∷ s ∷ texts)) (sym same)
            (swapped-IsNearest key _ best s texts least (nearest-IsNearest key best texts))
    ]

or_nearest-IsSuggestion :
    (found : List Str) (key first : Str) (others : List Str)
    → Ending (codes "." ++ key) (first ∷ others) found
    → IsSuggestion key (first ∷ others) (did_you_mean (or_nearest found key first others))
unfolding or_nearest
or_nearest-IsSuggestion [] key first others h = by_distance h (nearest-IsNearest key first others)
or_nearest-IsSuggestion (s ∷ found) key first others h = by_ending h

-- For a name that a map with entities does not have, the message suggests exactly the names of
-- the map that end with it after a dot, in their order; where none does, it suggests one name
-- of the map, and no name of the map has a lower edit distance.
pub key_error-IsSuggestion :
    {A : Type 0} (key first : Str) (a : A) (entries : List (Str × A)) (ids : List (ℕ × A))
    → IsSuggestion key
        (first ∷ names entries)
        (key_error (name key) (record { by_name = (first, a) ∷ entries; by_id = ids }))
unfolding key_error suggest
key_error-IsSuggestion key first a entries ids =
    or_nearest-IsSuggestion _ key first (names entries)
      (matching-Ending (codes "." ++ key) (first ∷ names entries))
