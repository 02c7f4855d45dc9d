-- ===== src/Entities/Updates/Outcome.antt =====
-- Nested lists of updates: what is encoded, against the nesting.
use finsy.Prelude.{◌≡◌, refl, ap, sym, subst, ◌∙◌, List, [], ◌∷◌, ◌++◌, ◌↔◌}
use finsy.Prelude.{arith, ok, >>=-eq-ok}
use finsy.Entities.Resources.{Schema}
use finsy.Entities.Updates.{
  UpdateItem, Outgoing, encode_item, UpdateList, leaf, nested, UpdateLists, done, next, flatten,
  encode_items, encode_updates,
}

-- What a nested list of updates gives, by its structure: every item is encoded, and what is in a list
-- comes before what follows it.
mutual
  pub data Sends {R : Type 0} (s : Schema) : UpdateList R → List (Outgoing R) → Type 0 where
    sends_leaf :
        {item : UpdateItem R} {o : Outgoing R}
        → encode_item s item ≡ ok o
        → Sends s (leaf item) (o ∷ [])
    sends_nested :
        {values : UpdateLists R} {os : List (Outgoing R)}
        → SendsAll s values os
        → Sends s (nested values) os

  pub data SendsAll {R : Type 0} (s : Schema) : UpdateLists R → List (Outgoing R) → Type 0 where
    sends_none : SendsAll s done []
    sends_next :
        {value : UpdateList R} {values : UpdateLists R} {os others : List (Outgoing R)}
        → Sends s value os
        → SendsAll s values others
        → SendsAll s (next value values) (os ++ others)

module _ {R : Type 0} (s : Schema) where
  append_ok :
      (items others : List (UpdateItem R)) {os rest : List (Outgoing R)}
      → encode_items s items ≡ ok os
      → encode_items s others ≡ ok rest
      → encode_items s (items ++ others) ≡ ok (os ++ rest)
  unfolding encode_items
  append_ok [] others {os} {rest} e e' =
      let same : os ≡ [] = ground arith in e' ∙ ap (λ os. ok (os ++ rest)) (sym same)
  append_ok (item ∷ items) others {os} {rest} e e' =
      let (o, e1, e2) = >>=-eq-ok (encode_item s item) _ e in
      let (os', e3, e4) = >>=-eq-ok (encode_items s items) _ e2 in
      let same : os ≡ o ∷ os' = ground arith in
      rw (e1, append_ok items others e3 e') (ap (λ os. ok (os ++ rest)) (sym same))

  append_inv :
      (items others : List (UpdateItem R)) {os : List (Outgoing R)}
      → encode_items s (items ++ others) ≡ ok os
      → (first : List (Outgoing R)) × (rest : List (Outgoing R)) × (encode_items s items ≡ ok first)
        × (encode_items s others ≡ ok rest)
        × (first ++ rest ≡ os)
  unfolding encode_items
  append_inv [] others {os} e = ([], os, refl, e, refl)
  append_inv (item ∷ items) others {os} e =
      let (o, e1, e2) = >>=-eq-ok (encode_item s item) _ e in
      let (os', e3, e4) = >>=-eq-ok (encode_items s (items ++ others)) _ e2 in
      let (first, rest, f, r, joined) = append_inv items others e3 in
      let same : o ∷ os' ≡ os = ground arith in
      (o ∷ first, rest, rw (e1, f) refl, r, ap (λ os. o ∷ os) joined ∙ same)

  items-SendsAll :
      (values : UpdateLists R) {os : List (Outgoing R)}
      → encode_items s (flatten values) ≡ ok os
      → SendsAll s values os
  unfolding flatten encode_items
  items-SendsAll done {os} e =
      let same : os ≡ [] = ground arith in subst (SendsAll s done) (sym same) sends_none
  items-SendsAll (next (leaf item) values) {os} e =
      let (o, e1, e2) = >>=-eq-ok (encode_item s item) _ e in
      let (rest, e3, e4) = >>=-eq-ok (encode_items s (flatten values)) _ e2 in
      let same : os ≡ o ∷ rest = ground arith in
      subst (SendsAll s (next (leaf item) values)) (sym same)
        (sends_next (sends_leaf e1) (items-SendsAll values e3))
  items-SendsAll (next (nested inner) values) {os} e =
      let (first, rest, e1, e2, joined) = append_inv (flatten inner) (flatten values) e in
      subst (SendsAll s (next (nested inner) values)) joined
        (sends_next (sends_nested (items-SendsAll inner e1)) (items-SendsAll values e2))

  SendsAll-items :
      (values : UpdateLists R) (os : List (Outgoing R))
      → SendsAll s values os
      → encode_items s (flatten values) ≡ ok os
  unfolding flatten encode_items
  SendsAll-items _ _ sends_none = refl
  SendsAll-items _ _ (sends_next (sends_leaf e) rest) = rw (e, SendsAll-items _ _ rest) refl
  SendsAll-items _ _
        (sends_next {os = os} {others = others} (sends_nested {values = inner} h) rest) =
      append_ok (flatten inner) _ (SendsAll-items inner os h) (SendsAll-items _ others rest)

  encode_updates-Sends :
      (value : UpdateList R) (os : List (Outgoing R))
      → encode_updates s value ≡ ok os
      → Sends s value os
  unfolding encode_updates encode_items
  encode_updates-Sends (leaf item) os e =
      let (o, e1, e2) = >>=-eq-ok (encode_item s item) _ e in
      let same : os ≡ o ∷ [] = ground arith in
      subst (Sends s (leaf item)) (sym same) (sends_leaf e1)
  encode_updates-Sends (nested values) os e = sends_nested (items-SendsAll values e)

  Sends-encode_updates :
      (value : UpdateList R) (os : List (Outgoing R))
      → Sends s value os
      → encode_updates s value ≡ ok os
  unfolding encode_updates encode_items
  Sends-encode_updates _ _ (sends_leaf e) = rw e refl
  Sends-encode_updates _ _ (sends_nested h) = SendsAll-items _ _ h

  -- `encode_updates` gives a list exactly where every item, at any depth of the nesting, is encoded: the
  -- list has the messages of the items, in their order.
  pub encode_updates_iff :
      (value : UpdateList R) (os : List (Outgoing R))
      → (encode_updates s value ≡ ok os) ↔ Sends s value os
  encode_updates_iff value os = (encode_updates-Sends value os, Sends-encode_updates value os)
