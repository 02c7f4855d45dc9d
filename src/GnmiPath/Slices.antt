-- ===== src/GnmiPath/Slices.antt =====
-- Slices of a path.
use finsy.Prelude.{ℕ, suc, zero, ◌+◌, ◌-◌, ◌/◌, ◌<◌, ◌≤◌, ◌≡◌, refl, ap, ◌∙◌, arith, none, some}
use finsy.Prelude.{List, [], ◌∷◌, ◌++◌, length, take, drop, length-append, ok}
use finsy.Prelude.Int.{pos, negsuc, add_ℤ, sub_ℤ, pos_part}
use finsy.GnmiPath.{Elem, GnmiPath, elem_at, or_error, elems_at, range_list, slice, truediv, bare}

elem_at-drop :
    (es : List Elem) (i : ℕ)
    → i < length es
    → (e : Elem) × (elem_at es (pos i) ≡ ok e) × (drop i es ≡ e ∷ drop (suc i) es)
unfolding elem_at or_error
elem_at-drop [] i h = absurd (omega arith)
elem_at-drop (e ∷ es) zero h = (e, refl, refl)
elem_at-drop (e ∷ es) (suc i) h = elem_at-drop es i (omega arith)

elems_at-range :
    (es : List Elem) (n i : ℕ)
    → i + n ≤ length es
    → elems_at es (range_list (pos i) (pos 1) n) ≡ ok (take n (drop i es))
unfolding elems_at range_list
elems_at-range es zero i h = refl
elems_at-range es (suc n) i h =
    let (e, here, split) = elem_at-drop es i (omega arith) in
    let rest = elems_at-range es n (suc i) (omega arith) in
    let up : add_ℤ (pos i) (pos 1) ≡ pos (suc i) = ground arith in rw (here, up, rest, split) refl

count_between : (i j : ℕ) → (pos_part (sub_ℤ (pos j) (pos i)) + 0) / 1 ≡ j - i
count_between i j =
    let between : pos_part (sub_ℤ (pos j) (pos i)) ≡ j - i = ground arith in omega (arith, between)

slice-range :
    (p : GnmiPath) (i j : ℕ)
    → i ≤ j
    → j ≤ length p.elems
    → slice p (some (pos i)) (some (pos j)) none ≡ ok (bare (take (j - i) (drop i p.elems)))
unfolding slice
slice-range p i j h k = rw (count_between i j, elems_at-range p.elems (j - i) i (omega arith)) refl

slice-front :
    (p : GnmiPath) (j : ℕ)
    → j ≤ length p.elems
    → slice p none (some (pos j)) none ≡ ok (bare (take j p.elems))
unfolding slice
slice-front p j k =
    let whole : j - 0 ≡ j = omega arith in
    rw (count_between 0 j, whole, elems_at-range p.elems j 0 (omega arith)) refl

slice-back :
    (p : GnmiPath) (i n : ℕ)
    → length p.elems ≡ i + n
    → slice p (some (pos i)) none none ≡ ok (bare (take n (drop i p.elems)))
unfolding slice
slice-back p i n k =
    let rest : length p.elems - i ≡ n = omega arith in
    rw (count_between i (length p.elems), rest, elems_at-range p.elems n i (omega arith)) refl

take-append : (es fs : List Elem) → take (length es) (es ++ fs) ≡ es
take-append [] fs = refl
take-append (e ∷ es) fs = ap (λ r. e ∷ r) (take-append es fs)

drop-append : (es fs : List Elem) → drop (length es) (es ++ fs) ≡ fs
drop-append [] fs = refl
drop-append (e ∷ es) fs = drop-append es fs

take-length : (es : List Elem) → take (length es) es ≡ es
take-length [] = refl
take-length (e ∷ es) = ap (λ r. e ∷ r) (take-length es)

-- A slice between two places of a path has its elements between them, without origin and target. In
-- particular a path that was joined of two is taken apart at the length of the first.
pub slice_lem :
    (p q : GnmiPath) (i j : ℕ)
    → i ≤ j
    → j ≤ length p.elems
    → (slice p (some (pos i)) (some (pos j)) none ≡ ok (bare (take (j - i) (drop i p.elems))))
      × (slice (truediv p q) none (some (pos (length p.elems))) none ≡ ok (bare p.elems))
      × (slice (truediv p q) (some (pos (length p.elems))) none none ≡ ok (bare q.elems))
unfolding truediv
slice_lem p q i j h k =
    let joined = truediv p q in
    let size = length-append p.elems q.elems in
    (
      slice-range p i j h k,
      slice-front joined (length p.elems) (omega arith)
          ∙ ap (λ r. ok (bare r)) (take-append p.elems q.elems),
      slice-back joined (length p.elems) (length q.elems) size
          ∙ ap (λ r. ok (bare (take (length q.elems) r))) (drop-append p.elems q.elems)
          ∙ ap (λ r. ok (bare r)) (take-length q.elems),
    )

-- A negative start is not counted from the end: the slice from -1 on of a path that is not empty is
-- its last element and then the whole path.
pub slice_negative_start :
    (p : GnmiPath) (e : Elem)
    → elem_at p.elems (negsuc 0) ≡ ok e
    → slice p (some (negsuc 0)) none none ≡ ok (bare (e ∷ p.elems))
unfolding slice range_list elems_at
slice_negative_start p e h =
    let count : (pos_part (sub_ℤ (pos (length p.elems)) (negsuc 0)) + 0) / 1
        ≡ suc (length p.elems) =
      omega (arith, more (length p.elems)) in
    let up : add_ℤ (negsuc 0) (pos 1) ≡ pos 0 = refl in
    rw (count, h, up, elems_at-range p.elems (length p.elems) 0 (omega arith), take-length p.elems)
      refl
  where
    more : (n : ℕ) → pos_part (sub_ℤ (pos n) (negsuc 0)) ≡ suc n
    more n = ground arith
