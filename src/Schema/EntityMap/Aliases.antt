-- ===== src/Schema/EntityMap/Aliases.antt =====
-- The keys of an entity's alias, by the dots of the alias; and that P4EntityMap finds the same ones.
use finsy.Prelude.{
  ℕ, zero, suc, ◌≡◌, refl, sym, inl, inr, ◌⊎◌, Bool, true, false, ◌&&◌, not, Option, none, some,
  List, [], ◌∷◌, Str, codes, str_eq, ◌==◌, if◌then◌else◌, Bool-cases,
}
use finsy.Prelude.{Result, ok, err, value_error, ◌>>=◌}
use finsy.Text.{contains, split_once, remove_prefix?}
use finsy.Schema.EntityMap.{Key, name, rsplit_pair}

-- The dots of a text, and what stands behind its first dot
abbrev pub dots : Str → ℕ
dots [] = 0
dots (c ∷ s) = if c == b'.' then suc (dots s) else dots s

abbrev pub after_dot : Str → Str
after_dot [] = []
after_dot (c ∷ s) = if c == b'.' then s else after_dot s

-- An alias without a dot has no other end, one with a dot has what stands behind it, and one with more
-- is refused.
abbrev pub end_keys : ℕ → Str → Result (List Key)
end_keys zero alias = ok []
end_keys (suc zero) alias = ok (name (after_dot alias) ∷ [])
end_keys (suc (suc n)) alias = err value_error

-- The keys by which an entity is found beside its ID and its name: an alias of its own, or the end of one
-- that is the name, where the ends are asked for.
unfoldable pub alias_keys : Str → Bool → Option Str → Result (List Key)
alias_keys own split_suffix none = ok []
alias_keys own split_suffix (some alias) =
    if not (str_eq own alias)
    then ok (name alias ∷ [])
    else if split_suffix
    then end_keys (dots alias) alias
    else ok []

-- The keys as they are read with `rsplit_pair`
unfoldable pub read_keys : Str → Bool → Option Str → Result (List Key)
read_keys own split_suffix none = ok []
read_keys own split_suffix (some alias) =
    if not (str_eq own alias)
    then ok (name alias ∷ [])
    else if split_suffix && contains b'.' alias
    then (do (_, suffix) ← rsplit_pair alias; ok (name suffix ∷ []))
    else ok []

dots-cases :
    (s : Str)
    → ((dots s ≡ 0) × (contains b'.' s ≡ false))
      ⊎ ((front : Str) × (split_once (codes ".") s ≡ some (front, after_dot s))
          × (contains b'.' s ≡ true)
          × (dots s ≡ suc (dots (after_dot s))))
unfolding contains split_once remove_prefix?
dots-cases [] = inl (refl, refl)
dots-cases (c ∷ s) = elim (Bool-cases (c == b'.')) [
  | inl dot ↦ inr ([], rw (dot, split_once) refl, rw dot refl, rw dot refl)
  | inr other ↦ elim (dots-cases s) [
    | inl (no_dots, without) ↦ inl (rw other no_dots, rw other without)
    | inr (front, split, with_dot, more) ↦
        inr (c ∷ front, rw (other, split_once, split) refl, rw other with_dot, rw other more)
  ]
]

rsplit_pair-end_keys :
    (alias : Str)
    → contains b'.' alias ≡ true
    → (rsplit_pair alias >>= (λ pair. ok (name pair.1 ∷ []))) ≡ end_keys (dots alias) alias
unfolding rsplit_pair
rsplit_pair-end_keys alias h = elim (dots-cases alias) [
  | inl (_, without) ↦ cc (h, without)
  | inr (front, split, _, more) ↦ elim (dots-cases (after_dot alias)) [
    | inl (no_dots, without) ↦ rw (more, no_dots, split, rsplit_pair, without) refl
    | inr (_, _, with_dot, again) ↦ rw (more, again, split, rsplit_pair, with_dot) refl
  ]
]

end_keys-ok : (alias : Str) → contains b'.' alias ≡ false → end_keys (dots alias) alias ≡ ok []
end_keys-ok alias h = elim (dots-cases alias) [
  | inl (no_dots, _) ↦ rw no_dots refl
  | inr (_, _, with_dot, _) ↦ cc (h, with_dot)
]

end_keys-read_keys :
    (split_suffix : Bool) (alias : Str)
    → (if split_suffix && contains b'.' alias
        then (rsplit_pair alias >>= (λ pair. ok (name pair.1 ∷ [])))
        else ok [])
      ≡ (if split_suffix then end_keys (dots alias) alias else ok [])
end_keys-read_keys false alias = refl
end_keys-read_keys true alias = elim (Bool-cases (contains b'.' alias)) [
  | inl dotted ↦ rw dotted (rsplit_pair-end_keys alias dotted)
  | inr whole ↦ rw whole (sym (end_keys-ok alias whole))
]

-- `rsplit_pair` finds the keys that the dots of the alias tell.
pub read_keys-alias_keys :
    (own : Str) (split_suffix : Bool) (alias : Option Str)
    → read_keys own split_suffix alias ≡ alias_keys own split_suffix alias
unfolding read_keys alias_keys
read_keys-alias_keys own split_suffix none = refl
read_keys-alias_keys own split_suffix (some alias) = elim (Bool-cases (str_eq own alias)) [
  | inl same ↦ rw same (end_keys-read_keys split_suffix alias)
  | inr other ↦ rw other refl
]
