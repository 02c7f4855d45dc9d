-- ===== src/EditDistance.antt =====
-- finsy/stringutil.py: the edit distance of two texts, with one row of the table.
pub mod Reference
pub mod Minimal
mod Examples
use finsy.Prelude.{
  ℕ, zero, suc, ◌+◌, Bool, true, false, List, [], ◌∷◌, length, ltb, ◌==◌, if◌then◌else◌, Str,
  str_eq,
}

-- list(range(i, i + n))
unfoldable pub range_from : ℕ → ℕ → List ℕ
range_from i zero = []
range_from i (suc n) = i ∷ range_from (i + 1) n

abbrev cheaper : ℕ → ℕ → ℕ
cheaper min_cost other = if ltb other min_cost then other else min_cost

-- The new entry, from `row[j]`, `row[j + 1]` and `prev`.
unfoldable pub entry_cost : Bool → ℕ → ℕ → ℕ → ℕ
entry_cost true diagonal above prev = diagonal
entry_cost false diagonal above prev = cheaper (cheaper (diagonal + 1) (above + 1)) (prev + 1)

-- The inner loop for one character of the first text. The row has one entry more than the second
-- text has characters left.
unfoldable pub next_row : ℕ → Str → List ℕ → ℕ → List ℕ
next_row c [] row prev = prev ∷ []
next_row c (b ∷ t) (diagonal ∷ above ∷ row) prev =
    prev ∷ next_row c t (above ∷ row) (entry_cost (c == b) diagonal above prev)
next_row c (b ∷ t) _ prev = []

-- The outer loop, from character `i` on
unfoldable pub fill : Str → Str → ℕ → List ℕ → List ℕ
fill [] t i row = row
fill (c ∷ s) t i row = fill s t (i + 1) (next_row c t row (i + 1))

-- row[j]
unfoldable pub entry : List ℕ → ℕ → ℕ
entry [] j = 0
entry (x ∷ row) zero = x
entry (x ∷ row) (suc j) = entry row j

unfoldable pub minimum_edit_distance : Str → Str → ℕ
minimum_edit_distance s t =
    if str_eq s t then 0 else entry (fill s t 0 (range_from 0 (length t + 1))) (length t)
