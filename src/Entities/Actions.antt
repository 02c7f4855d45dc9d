-- ===== src/Entities/Actions.antt =====
-- The action that a message was encoded from is decoded from it, and encoding it gives the message.
use finsy.Prelude.{
  ◌<◌, ◌≡◌, refl, ap, sym, ◌∙◌, subst, inl, inr, true, false, ◌||◌, some, List, [], ◌∷◌, ◌++◌, Str,
  All, All-append, length, str_eq, str_eq-eq, ◌==◌, Bool-cases, Option-cases,
}
use finsy.Prelude.{arith, ok, value_error, >>=-eq-ok, guard, guard_inv}
use finsy.Values.Exact.{ExactValue, encode_exact, decode_exact, present}
use finsy.Schema.DataTypes.Lookup.{str_eq_refl, Distinct}
use finsy.Schema.EntityMap.{EntityMap, Key, id, name, get, get_item, len}
use finsy.Schema.EntityMap.Indexed.{IsIndexed, get-IsIndexed}
use finsy.Schema.MatchField.{decode_format, has_address_format_annotation}
use finsy.Schema.MatchField.Encoded.{shown_as, encode_exact-IsEncoded, decode_exact-IsEncoded}
use finsy.Schema.Actions.{
  ActionParam, Param, encode_param, decode_param, Action, param_entity, action_entity,
}
use finsy.Entities.{
  Args, put_item, TableAction, ActionMessage, encode_args, encode_params, encode_action,
  decode_args, decode_action,
}

pub get_item_inv :
    {A : Type 0} (key : Key) (m : EntityMap A) {a : A} → get_item key m ≡ ok a → get key m ≡ some a
unfolding get_item
get_item_inv key m {a} e = elim (Option-cases (get key m)) [
  | inl missing ↦ cc (rw (missing, get_item) at e)
  | inr (b, found) ↦
      let own : b ≡ a = ground (arith, rw (found, get_item) at e) in found ∙ ap some own
]

pub get_item-get :
    {A : Type 0} (key : Key) (m : EntityMap A) {a : A} → get key m ≡ some a → get_item key m ≡ ok a
unfolding get_item
get_item-get key m found = rw (found, get_item) refl

-- The parameters of an action: they are found by their IDs, by their own names only, and have bits.
pub record AreParams (aps : EntityMap ActionParam) : Type 0 where
  pub indexed : IsIndexed aps
  pub own_names : (s : Str) (p : ActionParam) → get (name s) aps ≡ some p → p.name ≡ s
  pub wide : (key : Key) (p : ActionParam) → get key aps ≡ some p → 0 < p.bitwidth

-- What a parameter encodes is decoded, and encoded again.
encode_param_again :
    (p : ActionParam) (v : ExactValue) {m : Param}
    → 0 < p.bitwidth
    → encode_param p v ≡ ok m
    → (m.param_id ≡ p.id)
      × ((v' : ExactValue) × (decode_param p m ≡ ok v') × (encode_param p v' ≡ ok m))
unfolding encode_param decode_param decode_format
encode_param_again p v {m} h e =
    let (bs, encoded, e1) = >>=-eq-ok (encode_exact v p.bitwidth) _ e in
    let as_address = has_address_format_annotation p.annotations in
    let (n, decoded, again) =
      decode_exact-IsEncoded p.bitwidth bs as_address h
        (encode_exact-IsEncoded v p.bitwidth h encoded) in
    let same : m ≡ record { param_id = p.id; value = bs } = ground arith in
    (
      ap (λ (m : Param). m.param_id) same,
      (
        present n p.bitwidth (shown_as as_address),
        ap (λ (m : Param). decode_exact m.value p.bitwidth (shown_as as_address)) same ∙ decoded,
        rw again (ap ok (sym same)),
      ),
    )

abbrev pub arg_names : {V : Type 0} → List (Str × V) → List Str
arg_names [] = []
arg_names ((key, v) ∷ args) = key ∷ arg_names args

-- A key that no item has
abbrev pub IsNew : {V : Type 0} → List (Str × V) → Str → Type 0
IsNew args key = All (λ other. str_eq key other ≡ false) (arg_names args)

str_eq_sym : (s t : Str) → str_eq s t ≡ false → str_eq t s ≡ false
str_eq_sym s t h = elim (Bool-cases (str_eq t s)) [
  | inr other ↦ other
  | inl same ↦ cc (ap (str_eq s) (str_eq-eq t s same) ∙ str_eq_refl s, h)
]

module _ {V : Type 0} where
  pub put_item_new :
      (key : Str) (v : V) (args : List (Str × V))
      → IsNew args key
      → put_item key v args ≡ args ++ (key, v) ∷ []
  put_item_new key v [] h = refl
  put_item_new key v ((k, w) ∷ args) (here, h) = rw (here, put_item_new key v args h) refl

  arg_names-append : (xs ys : List (Str × V)) → arg_names (xs ++ ys) ≡ arg_names xs ++ arg_names ys
  arg_names-append [] ys = refl
  arg_names-append ((key, v) ∷ xs) ys = ap (λ ks. key ∷ ks) (arg_names-append xs ys)

  -- After `key` was set, the other names are still new.
  pub still-IsNew :
      (key : Str) (v : V) (acc : List (Str × V)) (others : List Str)
      → All (IsNew acc) others
      → All (λ other. str_eq key other ≡ false) others
      → All (IsNew (acc ++ (key, v) ∷ [])) others
  still-IsNew key v acc [] h k = tt
  still-IsNew key v acc (other ∷ others) (h, hs) (k, ks) = (
    subst (All (λ x. str_eq other x ≡ false)) (sym (arg_names-append acc ((key, v) ∷ [])))
        (All-append _ (arg_names acc) (key ∷ []) h (str_eq_sym key other k, tt)),
    still-IsNew key v acc others hs ks,
  )

  pub append_assoc :
      (xs : List (Str × V)) (x : Str × V) (ys : List (Str × V))
      → (xs ++ x ∷ []) ++ ys ≡ xs ++ x ∷ ys
  append_assoc [] x ys = refl
  append_assoc (y ∷ xs) x ys = ap (λ zs. y ∷ zs) (append_assoc xs x ys)

  pub append_nil : (xs : List (Str × V)) → xs ++ [] ≡ xs
  append_nil [] = refl
  append_nil (x ∷ xs) = ap (λ zs. x ∷ zs) (append_nil xs)

-- The messages are decoded after `acc` to arguments of these names, which are encoded as they are.
abbrev pub HasArgs : EntityMap ActionParam → List Str → Args → List Param → Type 0
HasArgs aps keys acc messages =
    (args : Args) × (decode_args aps messages acc ≡ ok (acc ++ args))
    × (encode_args aps args ≡ ok messages)
    × (arg_names args ≡ keys)

cons-HasArgs :
    (aps : EntityMap ActionParam) (key : Str) (v : ExactValue) (keys : List Str) (acc : Args)
    (p : ActionParam) (m : Param) (messages : List Param)
    → AreParams aps
    → IsNew acc key
    → get (name key) aps ≡ some p
    → encode_param p v ≡ ok m
    → ((v' : ExactValue) → HasArgs aps keys (acc ++ (key, v') ∷ []) messages)
    → HasArgs aps (key ∷ keys) acc (m ∷ messages)
unfolding encode_args decode_args
cons-HasArgs aps key v keys acc p m messages h new found encoded rest =
    let (ident, (v', decoded, again)) =
      encode_param_again p v (h.wide (name key) p found) encoded in
    let (args, decoded', again', same_names) = rest v' in
    let by_id : get (id m.param_id) aps ≡ some p =
      ap (λ n. get (id n) aps) ident ∙ get-IsIndexed (name key) aps h.indexed found in
    let set_here : put_item p.name v' acc ≡ acc ++ (key, v') ∷ [] =
      ap (λ k. put_item k v' acc) (h.own_names key p found) ∙ put_item_new key v' acc new in
    (
      (key, v') ∷ args,
      rw (get_item-get (id m.param_id) aps by_id, decoded, set_here, decoded')
          (ap ok (append_assoc acc (key, v') args)),
      rw (get_item-get (name key) aps found, again, again') refl,
      ap (λ ks. key ∷ ks) same_names,
    )

encode_args-HasArgs :
    (aps : EntityMap ActionParam) (args acc : Args) {messages : List Param}
    → AreParams aps
    → Distinct (arg_names args)
    → All (IsNew acc) (arg_names args)
    → encode_args aps args ≡ ok messages
    → HasArgs aps (arg_names args) acc messages
unfolding encode_args decode_args
encode_args-HasArgs aps [] acc {messages} h apart fresh e =
    let same : messages ≡ [] = ground arith in
    subst (HasArgs aps [] acc) (sym same) ([], ap ok (sym (append_nil acc)), refl, refl)
encode_args-HasArgs aps ((key, v) ∷ args) acc {messages} h (apart, aparts) (new, news) e =
    let (p, item, e1) = >>=-eq-ok (get_item (name key) aps) _ e in
    let (m, encoded, e2) = >>=-eq-ok (encode_param p v) _ e1 in
    let (others, e3, e4) = >>=-eq-ok (encode_args aps args) _ e2 in
    let same : messages ≡ m ∷ others = ground arith in
    subst (HasArgs aps (key ∷ arg_names args) acc) (sym same) (
      cons-HasArgs aps key v (arg_names args) acc p m others h new
        (get_item_inv (name key) aps item) encoded
        (λ v'.
          encode_args-HasArgs aps args (acc ++ (key, v') ∷ []) h aparts
            (still-IsNew key v' acc (arg_names args) news apart) e3))

-- The actions of a table: they are found by their IDs and their aliases, and have parameters.
pub record AreActions (actions : EntityMap Action) : Type 0 where
  pub indexed : IsIndexed actions
  pub aliased :
      (key : Key) (a : Action) → get key actions ≡ some a → get (name a.alias) actions ≡ some a
  pub with_params : (key : Key) (a : Action) → get key actions ≡ some a → AreParams a.params

abbrev pub HasAction : EntityMap Action → List Str → ActionMessage → Type 0
HasAction actions keys message =
    (a : TableAction) × (decode_action actions message ≡ ok a)
    × (encode_action actions a ≡ ok message)
    × (arg_names a.args ≡ keys)

pub all-IsNew : (V : Type 0) (keys : List Str) → All (IsNew {V = V} []) keys
all-IsNew V [] = tt
all-IsNew V (key ∷ keys) = (tt, all-IsNew V keys)

item-HasAction :
    (actions : EntityMap Action) (key : Key) (item : Action) (keys : List Str)
    (messages : List Param)
    → AreActions actions
    → get key actions ≡ some item
    → HasArgs item.params keys [] messages
    → (length messages == 0 || length messages == len item.params) ≡ true
    → HasAction actions keys (record { action_id = item.id; params = messages })
unfolding encode_action encode_params decode_action
item-HasAction actions key item keys messages h found (args, decoded, again, same_names) counted =
    let by_id = get_item-get (id item.id) actions (get-IsIndexed key actions h.indexed found) in
    let by_alias = get_item-get (name item.alias) actions (h.aliased key item found) in
    (
      record { name = item.alias; args = args },
      rw (by_id, decoded) refl,
      rw (by_alias, again, counted) refl,
      same_names,
    )

-- For a table whose actions and parameters are found by their IDs, and where the names of the
-- arguments differ: an action that is encoded is decoded as an action with arguments of the same
-- names, and encoding that one gives the same message.
pub encode_action-decode_action :
    (actions : EntityMap Action) (a : TableAction) {message : ActionMessage}
    → AreActions actions
    → Distinct (arg_names a.args)
    → encode_action actions a ≡ ok message
    → (a' : TableAction) × (decode_action actions message ≡ ok a')
      × (encode_action actions a' ≡ ok message)
      × (arg_names a'.args ≡ arg_names a.args)
unfolding encode_action encode_params
encode_action-decode_action actions a {message} h apart e =
    let (item, e0, e1) = >>=-eq-ok (get_item (name a.name) actions) _ e in
    let (messages, e2, e3) = >>=-eq-ok (encode_args item.params a.args) _ e1 in
    let enough = length messages == 0 || length messages == len item.params in
    let (_, counted, e4) = >>=-eq-ok (guard enough value_error) _ e3 in
    let found = get_item_inv (name a.name) actions e0 in
    let has =
      encode_args-HasArgs item.params a.args [] (h.with_params _ item found) apart
        (all-IsNew ExactValue (arg_names a.args)) e2 in
    let same : message ≡ record { action_id = item.id; params = messages } = ground arith in
    subst (HasAction actions (arg_names a.args)) (sym same) (
      item-HasAction actions (name a.name) item (arg_names a.args) messages h found has
        (guard_inv enough value_error counted))
