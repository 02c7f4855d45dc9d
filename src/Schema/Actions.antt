-- ===== src/Schema/Actions.antt =====
-- finsy/p4schema.py: P4ActionParam, P4Action and P4ActionRef, and P4Table as far as the entities use it.
use finsy.Prelude.{ℕ, Option, none, some, Str, Bytes, List, Result, ok, ◌>>=◌}
use finsy.Values.Exact.{ExactValue, with_string, encode_exact, decode_exact, format_exact}
use finsy.Schema.EntityMap.{Entity, EntityMap}
use finsy.Schema.MatchField
use finsy.Schema.MatchField.{MatchField, Annotation, decode_format}

pub record ActionParam : Type 0 where
  pub id : ℕ
  pub name : Str
  pub bitwidth : ℕ
  pub annotations : List Annotation

-- p4r.Action.Param
pub record Param : Type 0 where
  pub param_id : ℕ
  pub value : Bytes

unfoldable pub encode_param : ActionParam → ExactValue → Result Param
encode_param param value = do
  bytes ← encode_exact value param.bitwidth
  ok (record { param_id = param.id; value = bytes })

unfoldable pub decode_param : ActionParam → Param → Result ExactValue
decode_param param message =
    decode_exact message.value param.bitwidth (decode_format param.annotations)

unfoldable pub format_param : ActionParam → ExactValue → Result Str
format_param param value =
    format_exact value param.bitwidth (with_string (decode_format param.annotations))

pub record Action : Type 0 where
  pub id : ℕ
  pub name : Str
  pub alias : Str
  pub params : EntityMap ActionParam

pub record Table : Type 0 where
  pub id : ℕ
  pub name : Str
  pub alias : Str
  pub match_fields : EntityMap MatchField
  pub actions : EntityMap Action
  -- the alias of the action profile, of an indirect table
  pub action_profile : Option Str

-- A parameter has no alias.
instance abbrev pub param_entity : Entity ActionParam
param_entity = record { id_of = λ p. p.id; name_of = λ p. p.name; alias_of = λ p. none }

instance abbrev pub action_entity : Entity Action
action_entity = record { id_of = λ a. a.id; name_of = λ a. a.name; alias_of = λ a. some a.alias }

instance abbrev pub field_entity : Entity MatchField
field_entity = record {
  id_of = λ f. f.id;
  name_of = λ f. f.name;
  alias_of = λ f. some (MatchField.alias f);
}

instance abbrev pub table_entity : Entity Table
table_entity = record { id_of = λ t. t.id; name_of = λ t. t.name; alias_of = λ t. some t.alias }
