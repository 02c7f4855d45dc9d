-- ===== src/Entities/Profiles.antt =====
-- finsy/p4entity.py: the members and groups of action profiles.
pub mod RoundTrip
use finsy.Prelude.{ℕ, Option, none, some, List, [], ◌∷◌, Str}
use finsy.Prelude.{Result, ok, ◌>>=◌}
use finsy.Prelude.Int.{ℤ, pos}
use finsy.Schema.EntityMap.{EntityMap}
use finsy.Schema.Actions.{Action}
use finsy.Entities.{
  TableAction, ActionMessage, encode_action, decode_action, Weight, weight, watched, WatchKind,
  no_watch, watch_port, encode_watch_port, decode_weight,
}
use finsy.Entities.Resources.{Resource, Schema, find_named, find_numbered}

-- P4ActionProfileMember and p4r.ActionProfileMember
pub record ProfileMember : Type 0 where
  pub action_profile_id : Str
  pub member_id : ℕ
  pub action : Option TableAction

pub record ProfileMemberMessage : Type 0 where
  pub action_profile_id : ℕ
  pub member_id : ℕ
  pub action : Option ActionMessage

unfoldable pub encode_member_action :
    EntityMap Action → Option TableAction → Result (Option ActionMessage)
encode_member_action actions none = ok none
encode_member_action actions (some a) = do m ← encode_action actions a; ok (some m)

unfoldable pub decode_member_action :
    EntityMap Action → Option ActionMessage → Result (Option TableAction)
decode_member_action actions none = ok none
decode_member_action actions (some m) = do a ← decode_action actions m; ok (some a)

unfoldable pub member_message :
    EntityMap Action → Option (Resource (Unit {0})) → ProfileMember → Result ProfileMemberMessage
member_message actions none e = ok (record { action_profile_id = 0; member_id = 0; action = none })
member_message actions (some r) e = do
  m ← encode_member_action actions e.action
  ok (record { action_profile_id = r.id; member_id = e.member_id; action = m })

unfoldable pub member_of :
    EntityMap Action → Option (Resource (Unit {0})) → ProfileMemberMessage → Result ProfileMember
member_of actions none m = ok (record { action_profile_id = []; member_id = 0; action = none })
member_of actions (some r) m = do
  a ← decode_member_action actions m.action
  ok (record { action_profile_id = r.alias; member_id = m.member_id; action = a })

unfoldable pub encode_member : Schema → ProfileMember → Result ProfileMemberMessage
encode_member s e = do
  r ← find_named s.action_profiles e.action_profile_id
  member_message s.actions r e

unfoldable pub decode_member : Schema → ProfileMemberMessage → Result ProfileMember
decode_member s m = do
  r ← find_numbered s.action_profiles m.action_profile_id
  member_of s.actions r m

-- P4Member and p4r.ActionProfileGroup.Member
pub record Member : Type 0 where
  pub member_id : ℕ
  pub weight : Weight

pub record MemberMessage : Type 0 where
  pub member_id : ℕ
  pub weight : ℤ
  pub watch_kind : WatchKind

unfoldable pub weighted : ℕ → Weight → Result MemberMessage
weighted n (weight w) = ok (record { member_id = n; weight = w; watch_kind = no_watch })
weighted n (watched w port) = do
  bytes ← encode_watch_port port
  ok (record { member_id = n; weight = w; watch_kind = watch_port bytes })

unfoldable pub encode_group_member : Member → Result MemberMessage
unfolding weighted
encode_group_member member = weighted member.member_id member.weight

unfoldable pub decode_group_member : MemberMessage → Result Member
decode_group_member m = do
  w ← decode_weight m.weight m.watch_kind
  ok (record { member_id = m.member_id; weight = w })

unfoldable pub encode_group_members : List Member → Result (List MemberMessage)
encode_group_members [] = ok []
encode_group_members (member ∷ members) =
    let rest = encode_group_members members in
    (do m ← encode_group_member member; others ← rest; ok (m ∷ others))

unfoldable pub decode_group_members : List MemberMessage → Result (List Member)
decode_group_members [] = ok []
decode_group_members (m ∷ messages) =
    let rest = decode_group_members messages in
    (do member ← decode_group_member m; others ← rest; ok (member ∷ others))

-- P4ActionProfileGroup: no members and an empty list of them have one message.
pub record ProfileGroup : Type 0 where
  pub action_profile_id : Str
  pub group_id : ℕ
  pub max_size : ℤ
  pub members : Option (List Member)

pub record ProfileGroupMessage : Type 0 where
  pub action_profile_id : ℕ
  pub group_id : ℕ
  pub members : List MemberMessage
  pub max_size : ℤ

unfoldable pub encode_some_members : Option (List Member) → Result (List MemberMessage)
encode_some_members none = ok []
encode_some_members (some members) = encode_group_members members

unfoldable pub decode_some_members : List MemberMessage → Result (Option (List Member))
decode_some_members [] = ok none
decode_some_members (m ∷ messages) = do
  members ← decode_group_members (m ∷ messages)
  ok (some members)

unfoldable pub group_message :
    Option (Resource (Unit {0})) → ProfileGroup → Result ProfileGroupMessage
group_message none e =
    ok (record { action_profile_id = 0; group_id = 0; members = []; max_size = pos 0 })
group_message (some r) e = do
  members ← encode_some_members e.members
  ok (record {
    action_profile_id = r.id;
    group_id = e.group_id;
    members = members;
    max_size = e.max_size;
  })

unfoldable pub group_of : Option (Resource (Unit {0})) → ProfileGroupMessage → Result ProfileGroup
group_of none m =
    ok (record { action_profile_id = []; group_id = 0; max_size = pos 0; members = none })
group_of (some r) m = do
  members ← decode_some_members m.members
  ok (record {
    action_profile_id = r.alias;
    group_id = m.group_id;
    max_size = m.max_size;
    members = members;
  })

unfoldable pub encode_group : Schema → ProfileGroup → Result ProfileGroupMessage
encode_group s e = do r ← find_named s.action_profiles e.action_profile_id; group_message r e

unfoldable pub decode_group : Schema → ProfileGroupMessage → Result ProfileGroup
decode_group s m = do r ← find_numbered s.action_profiles m.action_profile_id; group_of r m
