-- ===== src/Switch/Write/Deletions.antt =====
-- Which entities delete_many deletes.
use finsy.Prelude.{ℕ, ◌≡◌, inl, inr, refl, ap, ◌∙◌, sym, arith, Bool, true, false, ◌||◌, not, ◌==◌}
use finsy.Prelude.{Option, List, [], ◌∷◌, map, All, All-append, Bool-cases, if◌then◌else◌}
use finsy.Client.{RpcStatus}
use finsy.Switch.Write.{
  Entity, table_entry, other_entity, Update, as_delete, Sent, stream_message, write_request,
  Outcome, returns, raises, assertion_fails, write_updates, write_entities, Table, to_skip,
  contains, is_kept, filter, by_skip, delete_reply, delete_many, delete_replies, unless_raised,
}

-- `P` holds of the entity of each update of a request.
abbrev pub Concerns : (Entity → Type 0) → Sent → Type 0
Concerns P (stream_message m) = Unit
Concerns P (write_request us) = All (λ u. P u.entity) us

-- Whether a table of this number is const
abbrev pub is_const_id : ℕ → List Table → Bool
is_const_id i [] = false
is_const_id i (t ∷ ts) = if t.is_const then t.id == i || is_const_id i ts else is_const_id i ts

abbrev pub has_const : List Table → Bool
has_const [] = false
has_const (t ∷ ts) = if t.is_const then true else has_const ts

abbrev pub IsFree : List Table → Entity → Type 0
IsFree tables (table_entry id entry) = is_const_id id tables ≡ false
IsFree tables (other_entity kind entry) = Unit

abbrev pub IsTableEntry : Entity → Type 0
IsTableEntry (table_entry id entry) = Unit
IsTableEntry (other_entity kind entry) = ⊥

contains-to_skip : (i : ℕ) (ts : List Table) → contains i (to_skip ts) ≡ is_const_id i ts
unfolding contains to_skip
contains-to_skip i [] = refl
contains-to_skip i (t ∷ ts) =
    let rest = contains-to_skip i ts in
    elim (Bool-cases t.is_const) [
      | inl e ↦ rw (e, to_skip, contains) (ap (λ b. t.id == i || b) rest)
      | inr e ↦ rw (e, to_skip) rest
    ]

to_skip-has_const : (ts : List Table) → to_skip ts ≡ [] → has_const ts ≡ false
unfolding to_skip
to_skip-has_const [] h = refl
to_skip-has_const (t ∷ ts) h =
    let ih = to_skip-has_const ts in
    elim (Bool-cases t.is_const) [
      | inl e ↦ absurd (ground arith)
      | inr e ↦ rw e (ih (rw (e, to_skip) at h))
    ]

no_skip-IsFree : (tables : List Table) → to_skip tables ≡ [] → (e : Entity) → IsFree tables e
unfolding contains
no_skip-IsFree tables h (table_entry id entry) =
    sym (contains-to_skip id tables) ∙ ap (contains id) h
no_skip-IsFree tables h (other_entity kind entry) = tt

not-inv : (b : Bool) → not b ≡ true → b ≡ false
not-inv true h = cc
not-inv false h = refl

is_kept-IsFree :
    (tables : List Table) (skip : List ℕ)
    → to_skip tables ≡ skip
    → (e : Entity) → is_kept skip e ≡ true
    → IsFree tables e
unfolding is_kept
is_kept-IsFree tables skip h (table_entry id entry) k =
    sym (contains-to_skip id tables) ∙ ap (contains id) h ∙ not-inv (contains id skip) k
is_kept-IsFree tables skip h (other_entity kind entry) k = tt

is_kept-IsTableEntry : (skip : List ℕ) (e : Entity) → is_kept skip e ≡ true → IsTableEntry e
unfolding is_kept
is_kept-IsTableEntry skip (table_entry id entry) k = tt
is_kept-IsTableEntry skip (other_entity kind entry) k = cc

filter-All :
    (P : Entity → Type 0) (p : Entity → Bool) (es : List Entity)
    → ((e : Entity) → p e ≡ true → P e)
    → All (λ u. P u.entity) (map as_delete (filter p es))
unfolding filter
filter-All P p [] h = tt
filter-All P p (e ∷ es) h =
    let rest = filter-All P p es h in
    elim (Bool-cases (p e)) [ inl k ↦ rw (k, filter) (h e k, rest) | inr k ↦ rw (k, filter) rest ]

All-map :
    (P : Entity → Type 0) (es : List Entity)
    → ((e : Entity) → P e)
    → All (λ u. P u.entity) (map as_delete es)
All-map P [] h = tt
All-map P (e ∷ es) h = (h e, All-map P es h)

unless_raised-All :
    (P : Sent → Type 0) (r rest : Outcome × List Sent)
    → All P r.1
    → All P rest.1
    → All P (unless_raised r rest).1
unfolding unless_raised
unless_raised-All P (returns, sent) rest h k = All-append P sent rest.1 h k
unless_raised-All P (raises ex, sent) rest h k = h
unless_raised-All P (assertion_fails, sent) rest h k = h

module _ (answer : List Update → Option (RpcStatus Update)) where
  delete_reply-All :
      (P : Entity → Type 0) (skip : List ℕ) (reply : List Entity)
      → ((es : List Entity) → All (λ u. P u.entity) (map as_delete (by_skip skip es)))
      → All (Concerns P) (delete_reply answer skip reply).1
  unfolding delete_reply write_updates write_entities by_skip
  delete_reply-All P skip [] h = tt
  delete_reply-All P [] (e ∷ es) h = (h (e ∷ es), tt)
  delete_reply-All P (i ∷ skip) (e ∷ es) h = (h (e ∷ es), tt)

  delete_replies-All :
      (P : Entity → Type 0) (skip : List ℕ) (replies : List (List Entity))
      → ((es : List Entity) → All (λ u. P u.entity) (map as_delete (by_skip skip es)))
      → All (Concerns P) (delete_replies answer skip replies).1
  unfolding delete_replies
  delete_replies-All P skip [] h = tt
  delete_replies-All P skip (reply ∷ replies) h =
      unless_raised-All (Concerns P) (delete_reply answer skip reply)
        (delete_replies answer skip replies) (delete_reply-All P skip reply h)
        (delete_replies-All P skip replies h)

by_skip-IsFree :
    (tables : List Table) (skip : List ℕ) (es : List Entity)
    → to_skip tables ≡ skip
    → All (λ u. IsFree tables u.entity) (map as_delete (by_skip skip es))
unfolding by_skip is_kept
by_skip-IsFree tables [] es e = All-map (IsFree tables) es (no_skip-IsFree tables e)
by_skip-IsFree tables (i ∷ skip) es e =
    filter-All (IsFree tables) (is_kept (i ∷ skip)) es (is_kept-IsFree tables (i ∷ skip) e)

by_skip-IsTableEntry :
    (tables : List Table) (skip : List ℕ) (es : List Entity)
    → to_skip tables ≡ skip
    → has_const tables ≡ true
    → All (λ u. IsTableEntry u.entity) (map as_delete (by_skip skip es))
unfolding by_skip is_kept to_skip
by_skip-IsTableEntry tables [] es e h = absurd (ground (arith, to_skip-has_const tables e))
by_skip-IsTableEntry tables (i ∷ skip) es e h =
    filter-All IsTableEntry (is_kept (i ∷ skip)) es (is_kept-IsTableEntry (i ∷ skip))

-- Whatever the switch answers, no request of delete_many has an entry of a const table.
pub delete_many_safe :
    (answer : List Update → Option (RpcStatus Update)) (tables : List Table)
    (replies : List (List Entity))
    → All (Concerns (IsFree tables)) (delete_many answer tables replies).1
unfolding delete_many
delete_many_safe answer tables replies =
    delete_replies-All answer (IsFree tables) (to_skip tables) replies
      (λ es. by_skip-IsFree tables (to_skip tables) es refl)

-- Where some table is const, delete_many deletes table entries only: it leaves the multicast groups
-- and all other entities that the read has brought.
delete_many_entries_only :
    (answer : List Update → Option (RpcStatus Update)) (tables : List Table)
    (replies : List (List Entity))
    → has_const tables ≡ true
    → All (Concerns IsTableEntry) (delete_many answer tables replies).1
unfolding delete_many
delete_many_entries_only answer tables replies h =
    delete_replies-All answer IsTableEntry (to_skip tables) replies
      (λ es. by_skip-IsTableEntry tables (to_skip tables) es refl h)
