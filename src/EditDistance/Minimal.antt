-- ===== src/EditDistance/Minimal.antt =====
-- Edit scripts, and that the edit distance is the least cost of one.
use finsy.Prelude.{str_eq-eq, ℕ, suc, ◌+◌, ◌≤◌, ◌≡◌, ◌⊎◌, inl, inr, refl, ◌∙◌, subst, arith, false}
use finsy.Prelude.{[], ◌∷◌, ◌++◌, length, ◌==◌, ==_iff, Str, str_eq, Bool-cases}
use mathlib.Core.List.{append-nil}
use finsy.EditDistance.{entry_cost, minimum_edit_distance}
use finsy.EditDistance.Reference.{distance, onto, table_lem}

-- One text is made of another by so many replacements, deletions and insertions.
pub data Edits : Str → Str → ℕ → Type 0 where
  done : Edits [] [] 0
  keep : (a : ℕ) {s t : Str} {n : ℕ} → Edits s t n → Edits (a ∷ s) (a ∷ t) n
  replace : (a b : ℕ) {s t : Str} {n : ℕ} → Edits s t n → Edits (a ∷ s) (b ∷ t) (suc n)
  delete : (a : ℕ) {s t : Str} {n : ℕ} → Edits s t n → Edits (a ∷ s) t (suc n)
  insert : (b : ℕ) {s t : Str} {n : ℕ} → Edits s t n → Edits s (b ∷ t) (suc n)

-- The reverse of two texts
Edits-onto :
    {s t u v : Str} {n : ℕ} {m k : ℕ}
    → Edits s t n
    → Edits u v m
    → n + m ≡ k
    → Edits (onto s u) (onto t v) k
Edits-onto {u} {v} {m} done e p = subst (Edits u v) (omega arith) e
Edits-onto (keep a d) e p = Edits-onto d (keep a e) p
Edits-onto (replace a b d) e p = Edits-onto d (replace a b e) (omega arith)
Edits-onto (delete a d) e p = Edits-onto d (delete a e) (omega arith)
Edits-onto (insert b d) e p = Edits-onto d (insert b e) (omega arith)

Edits-reversed : (s t : Str) {n : ℕ} → Edits s t n → Edits (onto s []) (onto t []) n
Edits-reversed s t {n} e = Edits-onto {k = n} e done (omega arith)

onto-onto : (s u v : Str) → onto (onto s u) v ≡ onto u (s ++ v)
onto-onto [] u v = refl
onto-onto (a ∷ s) u v = onto-onto s (a ∷ u) v

distance-nil : (u : Str) → distance u [] ≡ length u
unfolding distance
distance-nil [] = refl
distance-nil (a ∷ u) = refl

-- One more character changes the distance by one at most.
shorter_left :
    (a : ℕ) (u v : Str)
    → ((w : Str) (b : ℕ) → distance u w ≤ suc (distance u (b ∷ w)))
    → distance (a ∷ u) v ≤ suc (distance u v)
unfolding distance entry_cost
shorter_left a u [] h = omega (arith, distance-nil u)
shorter_left a u (b ∷ v) h = ground (arith, h v b)

distance-tail : (u v : Str) (b : ℕ) → distance u v ≤ suc (distance u (b ∷ v))
unfolding distance entry_cost
distance-tail [] v b = omega arith
distance-tail (a ∷ u) v b =
    let here = distance-tail u v b in
    let left = shorter_left a u v (distance-tail u) in ground arith

distance-delete : (a : ℕ) (u v : Str) → distance (a ∷ u) v ≤ suc (distance u v)
distance-delete a u v = shorter_left a u v (distance-tail u)

shorter_right :
    (b : ℕ) (u v : Str)
    → ((w : Str) (a : ℕ) → distance w v ≤ suc (distance (a ∷ w) v))
    → distance u (b ∷ v) ≤ suc (distance u v)
unfolding distance entry_cost
shorter_right b [] v h = omega arith
shorter_right b (a ∷ u) v h = ground (arith, h u a)

distance-tail_left : (v u : Str) (a : ℕ) → distance u v ≤ suc (distance (a ∷ u) v)
unfolding distance entry_cost
distance-tail_left [] u a = omega (arith, distance-nil u)
distance-tail_left (b ∷ v) u a =
    let here = distance-tail_left v u a in
    let right = shorter_right b u v (distance-tail_left v) in ground arith

distance-insert : (b : ℕ) (u v : Str) → distance u (b ∷ v) ≤ suc (distance u v)
distance-insert b u v = shorter_right b u v (distance-tail_left v)

distance-heads :
    (a b : ℕ) (u v : Str)
    → (distance (a ∷ u) (b ∷ v) ≤ suc (distance u v)) × (distance (a ∷ u) (a ∷ v) ≤ distance u v)
unfolding distance entry_cost
distance-heads a b u v = (ground arith, ground arith)

-- No script is cheaper.
distance-le : {u v : Str} {n : ℕ} → Edits u v n → distance u v ≤ n
distance-le done = omega (arith, distance-nil [])
distance-le (keep a {s} {t} e) = omega (arith, distance-le e, distance-heads a a s t)
distance-le (replace a b {s} {t} e) = omega (arith, distance-le e, distance-heads a b s t)
distance-le (delete a {s} {t} e) = omega (arith, distance-le e, distance-delete a s t)
distance-le (insert b {s} {t} e) = omega (arith, distance-le e, distance-insert b s t)

-- And one has that cost.
all_inserted : (v : Str) → Edits [] v (length v)
all_inserted [] = done
all_inserted (b ∷ v) = insert b (all_inserted v)

all_deleted : (u : Str) → Edits u [] (length u)
all_deleted [] = done
all_deleted (a ∷ u) = delete a (all_deleted u)

cost_cases :
    (d a l : ℕ)
    → (entry_cost false d a l ≡ suc d)
      ⊎ ((entry_cost false d a l ≡ suc a) ⊎ (entry_cost false d a l ≡ suc l))
unfolding entry_cost
cost_cases d a l = ground arith

Edits-cost :
    (a b : ℕ) {u v : Str} {d k l : ℕ}
    → Edits u v d
    → Edits u (b ∷ v) k
    → Edits (a ∷ u) v l
    → Edits (a ∷ u) (b ∷ v) (entry_cost (a == b) d k l)
Edits-cost a b {u} {v} {d} {k} {l} x y z = elim (Bool-cases (a == b)) [
  | inl same ↦
      let e = (==_iff a b).0 same in
      rw same (unfold entry_cost in subst (λ c. Edits (a ∷ u) (c ∷ v) d) e (keep a x))
  | inr differ ↦ rw differ (elim (cost_cases d k l) [
    | inl e ↦ rw e (replace a b x)
    | inr (inl e) ↦ rw e (delete a y)
    | inr (inr e) ↦ rw e (insert b z)
  ])
]

distance-Edits : (u v : Str) → Edits u v (distance u v)
unfolding distance
distance-Edits [] v = all_inserted v
distance-Edits (a ∷ u) [] = delete a (all_deleted u)
distance-Edits (a ∷ u) (b ∷ v) =
    Edits-cost a b (distance-Edits u v) (distance-Edits u (b ∷ v)) (distance-Edits (a ∷ u) v)

all_kept : (s : Str) → Edits s s 0
all_kept [] = done
all_kept (a ∷ s) = keep a (all_kept s)

-- What the two texts give in reverse and back again
twice : (s : Str) → onto (onto s []) [] ≡ s
twice s = onto-onto s [] [] ∙ append-nil s

minimum_edit_distance-distance :
    (s t : Str) → minimum_edit_distance s t ≡ distance (onto s []) (onto t [])
unfolding minimum_edit_distance
minimum_edit_distance-distance s t = elim (Bool-cases (str_eq s t)) [
  | inl same ↦
      let e = str_eq-eq s t same in
      let free = distance-le (Edits-reversed s t (subst (λ r. Edits s r 0) e (all_kept s))) in
      rw same (omega (arith, free))
  | inr differ ↦ rw differ (table_lem s t)
]

-- Where some script of replacements, deletions and insertions makes the second text of the first at
-- cost `n`, the result is the cost of a script, and at most `n`.
pub minimum_edit_distance_lem :
    (s t : Str) (n : ℕ)
    → Edits s t n
    → Edits s t (minimum_edit_distance s t) × (minimum_edit_distance s t ≤ n)
minimum_edit_distance_lem s t n e = rw (minimum_edit_distance-distance s t) (
  rw (twice s, twice t) at
      (Edits-reversed (onto s []) (onto t []) (distance-Edits (onto s []) (onto t []))),
  distance-le (Edits-reversed s t e),
)
