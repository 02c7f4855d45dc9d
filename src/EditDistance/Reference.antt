-- ===== src/EditDistance/Reference.antt =====
-- The rows of the table are the recursive distance of reversed prefixes.
use finsy.Prelude.{ℕ, suc, ◌+◌, ◌≡◌, refl, ap, arith, List, [], ◌∷◌, length, ◌==◌}
use finsy.Prelude.{Str}
use finsy.EditDistance.{range_from, entry_cost, next_row, fill, entry}

-- The distance of two texts, given in reverse, by their first characters.
unfoldable pub distance : Str → Str → ℕ
distance [] v = length v
distance (a ∷ u) [] = suc (length u)
distance (a ∷ u) (b ∷ v) =
    let diagonal = distance u v in
    let above = distance u (b ∷ v) in
    let prev = distance (a ∷ u) v in entry_cost (a == b) diagonal above prev

-- The first text in reverse, in front of the second
abbrev pub onto : Str → Str → Str
onto [] v = v
onto (b ∷ t) v = onto t (b ∷ v)

-- The distances from `u` to all prefixes of the second text that begin with `v`
row_of : Str → Str → Str → List ℕ
row_of u v [] = distance u v ∷ []
row_of u v (b ∷ t) = distance u v ∷ row_of u (b ∷ v) t

next_row-row_of :
    (c : ℕ) (u v t : Str) → next_row c t (row_of u v t) (distance (c ∷ u) v) ≡ row_of (c ∷ u) v t
unfolding next_row row_of distance
next_row-row_of c u v [] = refl
next_row-row_of c u v (b ∷ []) = refl
next_row-row_of c u v (b ∷ d ∷ t) =
    ap (λ r. distance (c ∷ u) v ∷ r) (next_row-row_of c u (b ∷ v) (d ∷ t))

fill-row_of : (s u t : Str) → fill s t (length u) (row_of u [] t) ≡ row_of (onto s u) [] t
unfolding fill
fill-row_of [] u t = refl
fill-row_of (c ∷ s) u t =
    let up : length u + 1 ≡ suc (length u) = omega arith in
    let next : next_row c t (row_of u [] t) (suc (length u)) ≡ row_of (c ∷ u) [] t =
      unfold distance in next_row-row_of c u [] t in
    rw (up, next) (fill-row_of s (c ∷ u) t)

range-row_of : (v t : Str) → range_from (length v) (length t + 1) ≡ row_of [] v t
unfolding range_from row_of distance
range-row_of v [] = refl
range-row_of v (b ∷ t) =
    let more : suc (length t) + 1 ≡ suc (length t + 1) = omega arith in
    let up : length v + 1 ≡ suc (length v) = omega arith in
    let rest = range-row_of (b ∷ v) t in rw (more, range_from, up) (ap (λ r. length v ∷ r) rest)

entry-row_of : (u v t : Str) → entry (row_of u v t) (length t) ≡ distance u (onto t v)
unfolding entry row_of
entry-row_of u v [] = refl
entry-row_of u v (b ∷ t) = entry-row_of u (b ∷ v) t

-- What the loops compute, for texts that differ
pub table_lem :
    (s t : Str)
    → entry (fill s t 0 (range_from 0 (length t + 1))) (length t) ≡ distance (onto s []) (onto t [])
table_lem s t = rw (range-row_of [] t, fill-row_of s [] t) (entry-row_of (onto s []) [] t)
