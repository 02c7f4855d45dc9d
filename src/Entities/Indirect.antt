-- ===== src/Entities/Indirect.antt =====
-- Indirect actions: what they are encoded as is decoded, and encoding it gives the same message.
use finsy.Prelude.{ℕ, ◌≡◌, refl, sym, subst, Option, none, some, List, [], ◌∷◌, Bytes, All}
use finsy.Prelude.{arith, ok, >>=-eq-ok}
use finsy.Prelude.Int.{ℤ, pos}
use finsy.Values.Exact.{int, exact_int}
use finsy.Schema.DataTypes.Lookup.{Distinct}
use finsy.Schema.DataTypes.Headers.{encode_exact_again}
use finsy.Schema.EntityMap.{EntityMap}
use finsy.Schema.Actions.{Action, Table}
use finsy.Entities.{
  TableAction, ActionMessage, encode_action, decode_action, Weight, weight, watched, no_watch,
  watch_port, ProfileAction, TableActionMessage, action_profile_member_id, action_profile_group_id,
  action_profile_action_set, IndirectAction, profile_action, encode_actions, encode_indirect,
  decode_weight, decode_actions, encode_watch_port, decode_watch_port, indirect, indirect_action,
  decode_table_action, check_invariant,
}
use finsy.Entities.Actions.{AreActions, arg_names, encode_action-decode_action}

-- The port that is watched, in 32 bits
pub watch_port_again :
    (port : ℤ) {bs : Bytes}
    → encode_watch_port port ≡ ok bs
    → (n : ℤ) × (decode_watch_port bs ≡ ok n) × (encode_watch_port n ≡ ok bs)
unfolding encode_watch_port decode_watch_port exact_int
watch_port_again port e =
    let (n, fits, decoded, again) = encode_exact_again (int port) 32 (omega arith) e in
    (pos n, rw decoded refl, again)

-- The message of a weighted action, decoded and encoded again
HasProfile : EntityMap Action → ProfileAction → Type 0
HasProfile actions message =
    (w : Weight) × (a : TableAction) × (decode_weight message.weight message.watch_kind ≡ ok w)
    × (decode_action actions message.action ≡ ok a)
    × ((m : ActionMessage) × (encode_action actions a ≡ ok m) × (profile_action m w ≡ ok message))

profile_action-HasProfile :
    (actions : EntityMap Action) (a : TableAction) (w : Weight) (m : ActionMessage)
    {message : ProfileAction}
    → AreActions actions
    → Distinct (arg_names a.args)
    → encode_action actions a ≡ ok m
    → profile_action m w ≡ ok message
    → HasProfile actions message
unfolding HasProfile profile_action decode_weight
profile_action-HasProfile actions a (weight w) m {message} h apart e e1 =
    let (a', decoded, again, _) = encode_action-decode_action actions a h apart e in
    let same : message ≡ record { action = m; weight = w; watch_kind = no_watch } = ground arith in
    subst (HasProfile actions) (sym same) (weight w, a', refl, decoded, (m, again, refl))
profile_action-HasProfile actions a (watched w port) m {message} h apart e e1 =
    let (a', decoded, again, _) = encode_action-decode_action actions a h apart e in
    let (bs, e2, e3) = >>=-eq-ok (encode_watch_port port) _ e1 in
    let (n, decoded_port, again_port) = watch_port_again port e2 in
    let same : message ≡ record { action = m; weight = w; watch_kind = watch_port bs } =
      ground arith in
    subst (HasProfile actions) (sym same)
      (watched w n, a', rw decoded_port refl, decoded, (m, again, rw again_port refl))

-- No action of the set names an argument twice.
abbrev pub AreApart : List (Weight × TableAction) → Type 0
AreApart = All (λ item. Distinct (arg_names item.1.args))

abbrev HasSet : EntityMap Action → List ProfileAction → Type 0
HasSet actions messages =
    (set : List (Weight × TableAction)) × (decode_actions actions messages ≡ ok set)
    × (encode_actions actions set ≡ ok messages)

cons-HasSet :
    (actions : EntityMap Action) (message : ProfileAction) (messages : List ProfileAction)
    → HasProfile actions message
    → HasSet actions messages
    → HasSet actions (message ∷ messages)
unfolding HasProfile encode_actions decode_actions
cons-HasSet actions message messages (w, a, dw, da, (m, ea, em)) (set, ds, es) =
    ((w, a) ∷ set, rw (dw, da, ds) refl, rw (ea, em, es) refl)

pub encode_actions-HasSet :
    (actions : EntityMap Action) (set : List (Weight × TableAction)) {messages : List ProfileAction}
    → AreActions actions
    → AreApart set
    → encode_actions actions set ≡ ok messages
    → HasSet actions messages
unfolding encode_actions decode_actions
encode_actions-HasSet actions [] {messages} h apart e =
    let same : messages ≡ [] = ground arith in subst (HasSet actions) (sym same) ([], refl, refl)
encode_actions-HasSet actions ((w, a) ∷ set) {messages} h (apart, aparts) e =
    let (m, e1, e2) = >>=-eq-ok (encode_action actions a) _ e in
    let (first, e3, e4) = >>=-eq-ok (profile_action m w) _ e2 in
    let (rest, e5, e6) = >>=-eq-ok (encode_actions actions set) _ e4 in
    let same : messages ≡ first ∷ rest = ground arith in
    subst (HasSet actions) (sym same) (
      cons-HasSet actions first rest (profile_action-HasProfile actions a w m h apart e1 e3)
        (encode_actions-HasSet actions set h aparts e5))

-- The actions of a set, if there is one, name no argument twice.
abbrev pub IsApart : Option (List (Weight × TableAction)) → Type 0
IsApart none = Unit
IsApart (some set) = AreApart set

abbrev HasIndirect : Table → TableActionMessage → Type 0
HasIndirect table message =
    (a : IndirectAction) × (decode_table_action table message ≡ ok (indirect a))
    × (encode_indirect table a ≡ ok message)

pub set-HasIndirect :
    (table : Table) (messages : List ProfileAction)
    → HasSet table.actions messages
    → HasIndirect table (action_profile_action_set messages)
unfolding encode_indirect decode_table_action indirect_action check_invariant
set-HasIndirect table messages (set, decoded, again) = (
  record { action_set = some set; member_id = none; group_id = none },
  rw decoded refl,
  rw again refl,
)

parts-HasIndirect :
    (table : Table) (set : Option (List (Weight × TableAction))) (member group : Option ℕ)
    {message : TableActionMessage}
    → AreActions table.actions
    → IsApart set
    → encode_indirect table (record { action_set = set; member_id = member; group_id = group })
      ≡ ok message
    → HasIndirect table message
unfolding encode_indirect decode_table_action indirect_action check_invariant
parts-HasIndirect table (some set) member group {message} h apart e =
    let (messages, e1, e2) = >>=-eq-ok (encode_actions table.actions set) _ e in
    let same : message ≡ action_profile_action_set messages = ground arith in
    subst (HasIndirect table) (sym same)
      (set-HasIndirect table messages (encode_actions-HasSet table.actions set h apart e1))
parts-HasIndirect table none (some n) group {message} h apart e =
    let same : message ≡ action_profile_member_id n = ground arith in
    subst (HasIndirect table) (sym same)
      (record { action_set = none; member_id = some n; group_id = none }, refl, refl)
parts-HasIndirect table none none (some n) {message} h apart e =
    let same : message ≡ action_profile_group_id n = ground arith in
    subst (HasIndirect table) (sym same)
      (record { action_set = none; member_id = none; group_id = some n }, refl, refl)
parts-HasIndirect table none none none h apart e = cc

-- For a table as in the theorem on actions, an indirect action that is encoded, be it a set of weighted
-- actions with ports to watch, a member or a group, is decoded as an indirect action, whose
-- constructor does not refuse it, and encoding that one gives the same message.
pub encode_indirect-decode_table_action :
    (table : Table) (a : IndirectAction) {message : TableActionMessage}
    → AreActions table.actions
    → IsApart a.action_set
    → encode_indirect table a ≡ ok message
    → (a' : IndirectAction) × (decode_table_action table message ≡ ok (indirect a'))
      × (encode_indirect table a' ≡ ok message)
encode_indirect-decode_table_action table a h apart e =
    parts-HasIndirect table a.action_set a.member_id a.group_id h apart e
