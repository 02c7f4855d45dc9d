-- ===== src/Text/Laws.antt =====
-- Splitting what was joined by one character.
use finsy.Prelude.{ℕ, ◌≡◌, refl, ap, ◌∙◌, true, false, [], ◌∷◌, ◌++◌, List, Str, All, arith}
use finsy.Prelude.{Option, some, none}
use finsy.Text.{contains, split, join, split_once, remove_prefix?}

-- A word with no separator in it is split off whole.
pub split-word : (c : ℕ) (w s : Str) → contains c w ≡ false → split c (w ++ (c ∷ s)) ≡ w ∷ split c s
unfolding split contains
split-word c [] s h = ground arith
split-word c (x ∷ w) s h = ground (arith, split-word c w s (ground arith))

pub split-last : (c : ℕ) (w : Str) → contains c w ≡ false → split c w ≡ w ∷ []
unfolding split contains
split-last c [] h = refl
split-last c (x ∷ w) h = ground (arith, split-last c w (ground arith))

-- `c.join(ws).split(c)` gives the words back, if there is one and none has the separator in it.
pub split-join :
    (c : ℕ) (w : Str) (ws : List Str)
    → All (λ v. contains c v ≡ false) (w ∷ ws)
    → split c (join (c ∷ []) (w ∷ ws)) ≡ w ∷ ws
unfolding join
split-join c w [] (h, _) = split-last c w h
split-join c w (v ∷ ws) (h, hs) =
    split-word c w (join (c ∷ []) (v ∷ ws)) h ∙ ap (λ rest. w ∷ rest) (split-join c v ws hs)

pub contains-append :
    (c : ℕ) (s t : Str) → contains c s ≡ false → contains c t ≡ false → contains c (s ++ t) ≡ false
unfolding contains
contains-append c [] t h k = k
contains-append c (x ∷ s) t h k = ground (arith, contains-append c s t (ground arith) k)

-- A character of no word and not of the separator is not in the joined text.
pub contains-join :
    (c : ℕ) (sep : Str) (ws : List Str)
    → contains c sep ≡ false
    → All (λ v. contains c v ≡ false) ws
    → contains c (join sep ws) ≡ false
unfolding join
contains-join c sep [] h hs = unfold contains in refl
contains-join c sep (w ∷ []) h hs = hs.0
contains-join c sep (w ∷ v ∷ ws) h (hw, hs) =
    contains-append c w _ hw (contains-append c sep _ h (contains-join c sep (v ∷ ws) h hs))

pub contains-separator : (c : ℕ) (s t : Str) → contains c (s ++ (c ∷ t)) ≡ true
unfolding contains
contains-separator c [] t = ground arith
contains-separator c (x ∷ s) t = ground (arith, contains-separator c s t)

-- What `split_once` finds after a text without the first character of the separator.
abbrev pub after_front : Str → Option (Str × Str) → Option (Str × Str)
after_front s none = none
after_front s (some (front, back)) = some (s ++ front, back)

after_front-nil : (o : Option (Str × Str)) → o ≡ after_front [] o
after_front-nil none = refl
after_front-nil (some (front, back)) = refl

pub split_once-append :
    (c : ℕ) (sep s t : Str)
    → contains c s ≡ false
    → split_once (c ∷ sep) (s ++ t) ≡ after_front s (split_once (c ∷ sep) t)
unfolding split_once contains remove_prefix?
split_once-append c sep [] t h = after_front-nil (split_once (c ∷ sep) t)
split_once-append c sep (x ∷ s) t h = ground (arith, split_once-append c sep s t (ground arith))

pub split_once-none : (c : ℕ) (sep s : Str) → contains c s ≡ false → split_once (c ∷ sep) s ≡ none
unfolding split_once contains remove_prefix?
split_once-none c sep [] h = refl
split_once-none c sep (x ∷ s) h = ground (arith, split_once-none c sep s (ground arith))
