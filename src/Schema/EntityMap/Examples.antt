-- ===== src/Schema/EntityMap/Examples.antt =====
-- Runs of P4EntityMap, and the witnesses of its properties.
use finsy.Prelude.{ℕ, ◌≡◌, refl, true, none, some, [], ◌∷◌, Str, codes}
use finsy.Prelude.{err, value_error}
use finsy.Schema.EntityMap.{
  Entity, id, name, get, add_all, empty_map, key_error, add, add_names, add_name, add_alias,
  add_suffix, rsplit_pair,
}
use finsy.Schema.EntityMap.Claims.{forget}
use finsy.Text.{contains, split_once, remove_prefix?}
use finsy.Schema.EntityMap.Laws.{claim_all, add_all_refines}
use finsy.Schema.EntityMap.Indexed.{get-add_all}
use finsy.Schema.EntityMap.Suggestions.{IsSuggestion, key_error-IsSuggestion}

record Action : Type 0 where
  pub number : ℕ
  pub full_name : Str
  pub alias : Str

instance abbrev action_entity : Entity Action
action_entity = record {
  id_of = λ a. a.number;
  name_of = λ a. a.full_name;
  alias_of = λ a. some a.alias;
}

abbrev forward : Action
forward = record { number = 1; full_name = codes "ingress.forward"; alias = codes "forward" }

abbrev drop_packet : Action
drop_packet = record { number = 2; full_name = codes "egress.drop"; alias = codes "egress.drop" }

abbrev deep : Action
deep = record { number = 3; full_name = codes "a.b.drop"; alias = codes "a.b.drop" }

add_all_refines_example :
    forget (add_all (forward ∷ drop_packet ∷ []) true empty_map)
    ≡ claim_all (forward ∷ drop_packet ∷ []) true (λ q. none)
add_all_refines_example = add_all_refines (forward ∷ drop_packet ∷ []) true

key_error-IsSuggestion_example : IsSuggestion (codes "dorp") (codes "forward" ∷ codes "drop" ∷ []) (
    key_error (name (codes "dorp")) (record {
      by_name = (codes "forward", forward) ∷ (codes "drop", drop_packet) ∷ [];
      by_id = [];
    }))
key_error-IsSuggestion_example =
    key_error-IsSuggestion (codes "dorp") (codes "forward") forward
      ((codes "drop", drop_packet) ∷ []) []

-- The suffix is a key; an alias with two dots is not split into two.
add_all_run :
    (get (name (codes "drop")) (add_all (forward ∷ drop_packet ∷ []) true empty_map).0
      ≡ some drop_packet)
    × ((add deep true empty_map).1 ≡ err value_error)
unfolding get add_all add add_names add_name add_alias add_suffix rsplit_pair contains split_once
    remove_prefix?
add_all_run = (refl, refl)

get_run :
    get (name (codes "drop")) (add_all (drop_packet ∷ deep ∷ []) true empty_map).0
    ≡ some drop_packet
unfolding get add_all add add_names add_name add_alias add_suffix rsplit_pair contains split_once
    remove_prefix?
get_run = refl

-- The second addition raises, and the first entity is still found.
get-add_all_example :
    get (id 2) (add_all (drop_packet ∷ deep ∷ []) true empty_map).0 ≡ some drop_packet
get-add_all_example = get-add_all (drop_packet ∷ deep ∷ []) true (name (codes "drop")) get_run
