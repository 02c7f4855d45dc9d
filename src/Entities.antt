-- ===== src/Entities.antt =====
-- finsy/p4entity.py: P4TableAction, P4IndirectAction and the ports that they watch.
pub mod Actions
pub mod Indirect
pub mod Tables
pub mod Resources
pub mod Profiles
pub mod Replication
pub mod Dispatch
pub mod Updates
mod Examples
use finsy.Prelude.{
  ℕ, Bool, true, false, ◌||◌, ◌&&◌, not, Option, none, some, List, [], ◌∷◌, Str, Bytes, length,
  str_eq, ◌==◌, if◌then◌else◌,
}
use finsy.Prelude.{Result, ok, err, value_error, assertion_error, ◌>>=◌, ◌>>◌, guard}
use finsy.Prelude.Int.{ℤ, pos, negsuc}
use finsy.Values.Exact.{ExactValue, int, default_format, encode_exact, decode_exact, exact_int}
use finsy.Schema.EntityMap.{EntityMap, id, name, get_item, len}
use finsy.Schema.Actions.{ActionParam, Param, encode_param, decode_param, Action, Table}

-- The keyword arguments of an action, in their order
abbrev pub Args : Type 0
Args = List (Str × ExactValue)

-- result[key] = value
abbrev pub put_item : {V : Type 0} → Str → V → List (Str × V) → List (Str × V)
put_item key v [] = (key, v) ∷ []
put_item key v ((k, w) ∷ items) =
    if str_eq key k then (k, v) ∷ items else (k, w) ∷ put_item key v items

-- P4TableAction
pub record TableAction : Type 0 where
  pub name : Str
  pub args : Args

-- p4r.Action
pub record ActionMessage : Type 0 where
  pub action_id : ℕ
  pub params : List Param

unfoldable pub encode_args : EntityMap ActionParam → Args → Result (List Param)
encode_args aps [] = ok []
encode_args aps ((key, value) ∷ args) =
    let rest = encode_args aps args in
    (do
      param ← get_item (name key) aps
      first ← encode_param param value
      others ← rest
      ok (first ∷ others))

-- An action without arguments is accepted, for wildcard reads; else none may be missing:
-- `_fail_missing_params` raises ValueError.
unfoldable pub encode_params : Action → Args → Result ActionMessage
unfolding encode_args
encode_params action args = do
  params ← encode_args action.params args
  guard (length params == 0 || length params == len action.params) value_error
  ok (record { action_id = action.id; params = params })

unfoldable pub encode_action : EntityMap Action → TableAction → Result ActionMessage
unfolding encode_params
encode_action actions a = do action ← get_item (name a.name) actions; encode_params action a.args

unfoldable pub decode_args : EntityMap ActionParam → List Param → Args → Result Args
decode_args aps [] args = ok args
decode_args aps (message ∷ messages) args = do
  param ← get_item (id message.param_id) aps
  value ← decode_param param message
  decode_args aps messages (put_item param.name value args)

unfoldable pub decode_action : EntityMap Action → ActionMessage → Result TableAction
unfolding decode_args
decode_action actions message = do
  action ← get_item (id message.action_id) actions
  args ← decode_args action.params message.params []
  ok (record { name = action.alias; args = args })

-- P4Weight: a weight, or a weight and a port to watch
pub data Weight : Type 0 where
  weight : ℤ → Weight
  watched : ℤ → ℤ → Weight

-- The `watch_kind` of a p4r.ActionProfileAction
pub data WatchKind : Type 0 where
  no_watch : WatchKind
  watch_port : Bytes → WatchKind
  watch : ℤ → WatchKind

pub record ProfileAction : Type 0 where
  pub action : ActionMessage
  pub weight : ℤ
  pub watch_kind : WatchKind

-- The `type` of a p4r.TableAction
pub data TableActionMessage : Type 0 where
  action : ActionMessage → TableActionMessage
  action_profile_member_id action_profile_group_id : ℕ → TableActionMessage
  action_profile_action_set : List ProfileAction → TableActionMessage
  no_type : TableActionMessage

-- The action of an indirect table is promoted to a set of one, of weight 1.
unfoldable pub promote : Option Str → ActionMessage → TableActionMessage
promote none message = action message
promote (some profile) message =
    action_profile_action_set
      (record { action = message; weight = pos 1; watch_kind = no_watch } ∷ [])

unfoldable pub encode_table_action : Table → TableAction → Result TableActionMessage
encode_table_action table a = do
  message ← encode_action table.actions a
  ok (promote table.action_profile message)

unfoldable pub encode_watch_port : ℤ → Result Bytes
encode_watch_port port = encode_exact (int port) 32

-- int(…) of what the codec returns
unfoldable pub decode_watch_port : Bytes → Result ℤ
decode_watch_port port = do value ← decode_exact port 32 default_format; exact_int value 32

-- P4IndirectAction
pub record IndirectAction : Type 0 where
  pub action_set : Option (List (Weight × TableAction))
  pub member_id : Option ℕ
  pub group_id : Option ℕ

is_none : {A : Type 0} → Option A → Bool
is_none none = true
is_none (some a) = false

unfoldable pub check_invariant : IndirectAction → Bool
unfolding is_none
check_invariant a = elim a.action_set [
  | some _ ↦ is_none a.member_id && is_none a.group_id
  | none ↦ elim a.member_id [ some _ ↦ is_none a.group_id | none ↦ not (is_none a.group_id) ]
]

-- The constructor, with __post_init__
unfoldable pub indirect_action :
    Option (List (Weight × TableAction)) → Option ℕ → Option ℕ → Result IndirectAction
unfolding check_invariant
indirect_action action_set member_id group_id =
    let a : IndirectAction = record {
      action_set = action_set;
      member_id = member_id;
      group_id = group_id;
    } in
    guard (check_invariant a) value_error >> ok a

unfoldable pub profile_action : ActionMessage → Weight → Result ProfileAction
profile_action message (weight w) =
    ok (record { action = message; weight = w; watch_kind = no_watch })
profile_action message (watched w port) = do
  bytes ← encode_watch_port port
  ok (record { action = message; weight = w; watch_kind = watch_port bytes })

unfoldable pub encode_actions :
    EntityMap Action → List (Weight × TableAction) → Result (List ProfileAction)
unfolding profile_action
encode_actions actions [] = ok []
encode_actions actions ((w, a) ∷ set) =
    let rest = encode_actions actions set in
    (do
      message ← encode_action actions a
      first ← profile_action message w
      others ← rest
      ok (first ∷ others))

-- `encode_table_action` of an indirect action, with `encode_action_set`
unfoldable pub encode_indirect : Table → IndirectAction → Result TableActionMessage
encode_indirect table a = elim a.action_set [
  | some set ↦ do profile ← encode_actions table.actions set; ok (action_profile_action_set profile)
  | none ↦ elim a.member_id [
    | some n ↦ ok (action_profile_member_id n)
    | none ↦ elim a.group_id [
      | some n ↦ ok (action_profile_group_id n)
      | none ↦ err assertion_error
    ]
  ]
]

unfoldable pub decode_weight : ℤ → WatchKind → Result Weight
decode_weight w no_watch = ok (weight w)
decode_weight w (watch_port bytes) = do port ← decode_watch_port bytes; ok (watched w port)
decode_weight w (watch port) = err value_error

unfoldable pub decode_actions :
    EntityMap Action → List ProfileAction → Result (List (Weight × TableAction))
unfolding decode_weight
decode_actions actions [] = ok []
decode_actions actions (message ∷ messages) =
    let rest = decode_actions actions messages in
    (do
      w ← decode_weight message.weight message.watch_kind
      a ← decode_action actions message.action
      others ← rest
      ok ((w, a) ∷ others))

-- What `decode_table_action` returns
pub data EntryAction : Type 0 where
  direct : TableAction → EntryAction
  indirect : IndirectAction → EntryAction

unfoldable pub decode_table_action : Table → TableActionMessage → Result EntryAction
decode_table_action table (action message) = do
  a ← decode_action table.actions message
  ok (direct a)
decode_table_action table (action_profile_member_id n) = do
  a ← indirect_action none (some n) none
  ok (indirect a)
decode_table_action table (action_profile_group_id n) = do
  a ← indirect_action none none (some n)
  ok (indirect a)
decode_table_action table (action_profile_action_set messages) = do
  set ← decode_actions table.actions messages
  a ← indirect_action (some set) none none
  ok (indirect a)
decode_table_action table no_type = err value_error
