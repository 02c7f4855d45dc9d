-- ===== src/EditDistance/Examples.antt =====
-- Runs of the edit distance, and its theorem at two words.
use finsy.Prelude.{◌≤◌, ◌≡◌, refl, codes}
use finsy.EditDistance.{minimum_edit_distance, fill, next_row, entry_cost, entry, range_from}
use finsy.EditDistance.Minimal.{Edits, replace, done, minimum_edit_distance_lem}

kitten : minimum_edit_distance (codes "kitten") (codes "sitting") ≡ 3
unfolding minimum_edit_distance fill next_row entry_cost entry range_from
kitten = refl

-- "ab" is made of "ba" by two replacements.
replaced : Edits (codes "ba") (codes "ab") 2
replaced = replace b'b' b'a' (replace b'a' b'b' done)

minimum_edit_distance_lem_example :
    Edits (codes "ba") (codes "ab") (minimum_edit_distance (codes "ba") (codes "ab"))
    × (minimum_edit_distance (codes "ba") (codes "ab") ≤ 2)
minimum_edit_distance_lem_example = minimum_edit_distance_lem (codes "ba") (codes "ab") 2 replaced
