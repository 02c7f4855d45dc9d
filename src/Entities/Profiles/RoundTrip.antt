-- ===== src/Entities/Profiles/RoundTrip.antt =====
-- Members and groups of action profiles: what they are encoded as is decoded, and encoding it gives the same
-- message.
use finsy.Prelude.{ℕ, ◌≡◌, refl, sym, subst, Option, none, some, List, [], ◌∷◌}
use finsy.Prelude.{arith, ok, >>=-eq-ok}
use finsy.Prelude.Int.{pos}
use finsy.Schema.DataTypes.Lookup.{Distinct}
use finsy.Schema.EntityMap.{EntityMap}
use finsy.Schema.Actions.{Action}
use finsy.Entities.{
  TableAction, ActionMessage, encode_action, Weight, weight, watched, no_watch, watch_port,
  encode_watch_port, decode_weight,
}
use finsy.Entities.Actions.{AreActions, arg_names, encode_action-decode_action}
use finsy.Entities.Indirect.{watch_port_again}
use finsy.Entities.Resources.{Resource, Schema}
use finsy.Entities.Resources.Found.{AreResources, HasParts, entry_again}
use finsy.Entities.Profiles.{
  ProfileMember, ProfileMemberMessage, encode_member_action, decode_member_action, member_message,
  member_of, encode_member, decode_member, Member, MemberMessage, weighted, encode_group_member,
  decode_group_member, encode_group_members, decode_group_members, ProfileGroup,
  ProfileGroupMessage, encode_some_members, decode_some_members, group_message, group_of,
  encode_group, decode_group,
}

abbrev pub IsMemberAction : Option TableAction → Type 0
IsMemberAction none = Unit
IsMemberAction (some a) = Distinct (arg_names a.args)

abbrev HasMemberAction : EntityMap Action → Option ActionMessage → Type 0
HasMemberAction actions m =
    (a : Option TableAction) × (decode_member_action actions m ≡ ok a)
    × (encode_member_action actions a ≡ ok m)

member_action_again :
    (actions : EntityMap Action) (a : Option TableAction) {m : Option ActionMessage}
    → AreActions actions
    → IsMemberAction a
    → encode_member_action actions a ≡ ok m
    → HasMemberAction actions m
unfolding encode_member_action decode_member_action
member_action_again actions none {m} h apart e =
    let same : m ≡ none = ground arith in
    subst (HasMemberAction actions) (sym same) (none, refl, refl)
member_action_again actions (some a) {m} h apart e =
    let (message, e1, e2) = >>=-eq-ok (encode_action actions a) _ e in
    let (a', decoded, again, _) = encode_action-decode_action actions a h apart e1 in
    let same : m ≡ some message = ground arith in
    subst (HasMemberAction actions) (sym same) (some a', rw decoded refl, rw again refl)

abbrev HasMember : EntityMap Action → Option (Resource (Unit {0})) → ProfileMemberMessage → Type 0
HasMember actions =
    HasParts (member_message actions) (member_of actions) (λ e. e.action_profile_id)
      (λ m. m.action_profile_id)

member_parts :
    (actions : EntityMap Action) (e : ProfileMember) (r : Option (Resource (Unit {0})))
    (m : ProfileMemberMessage)
    → AreActions actions
    → IsMemberAction e.action
    → member_message actions r e ≡ ok m
    → HasMember actions r m
unfolding member_message member_of
member_parts actions e none m h apart sent =
    let same : m ≡ record { action_profile_id = 0; member_id = 0; action = none } = ground arith in
    subst (HasMember actions none) (sym same) (record {
      entry = record { action_profile_id = []; member_id = 0; action = none };
      numbered = refl;
      aliased = refl;
      decoded = refl;
      again = refl;
    })
member_parts actions e (some r) m h apart sent =
    let (message, e1, e2) = >>=-eq-ok (encode_member_action actions e.action) _ sent in
    let (a, decoded, again) = member_action_again actions e.action h apart e1 in
    let same : m ≡ record { action_profile_id = r.id; member_id = e.member_id; action = message } =
      ground arith in
    subst (HasMember actions (some r)) (sym same) (record {
      entry = record { action_profile_id = r.alias; member_id = e.member_id; action = a };
      numbered = refl;
      aliased = refl;
      decoded = rw decoded refl;
      again = rw again refl;
    })

pub member_again :
    (s : Schema) (e : ProfileMember) {m : ProfileMemberMessage}
    → AreResources s.action_profiles
    → AreActions s.actions
    → IsMemberAction e.action
    → encode_member s e ≡ ok m
    → (e' : ProfileMember) × (decode_member s m ≡ ok e') × (encode_member s e' ≡ ok m)
unfolding encode_member decode_member
member_again s e h are apart sent =
    entry_again (member_message s.actions) (member_of s.actions) (λ e. e.action_profile_id)
      (λ m. m.action_profile_id) s.action_profiles e h
      (λ r m found sent. member_parts s.actions e r m are apart sent) sent

abbrev HasGroupMember : MemberMessage → Type 0
HasGroupMember m =
    (member : Member) × (decode_group_member m ≡ ok member) × (encode_group_member member ≡ ok m)

weighted-HasGroupMember :
    (n : ℕ) (w : Weight) {m : MemberMessage} → weighted n w ≡ ok m → HasGroupMember m
unfolding weighted encode_group_member decode_group_member decode_weight
weighted-HasGroupMember n (weight w) {m} e =
    let same : m ≡ record { member_id = n; weight = w; watch_kind = no_watch } = ground arith in
    subst HasGroupMember (sym same) (record { member_id = n; weight = weight w }, refl, refl)
weighted-HasGroupMember n (watched w port) {m} e =
    let (bs, e1, e2) = >>=-eq-ok (encode_watch_port port) _ e in
    let (p, decoded, again) = watch_port_again port e1 in
    let same : m ≡ record { member_id = n; weight = w; watch_kind = watch_port bs } =
      ground arith in
    subst HasGroupMember (sym same)
      (record { member_id = n; weight = watched w p }, rw decoded refl, rw again refl)

abbrev HasGroupMembers : List MemberMessage → Type 0
HasGroupMembers ms =
    (members : List Member) × (decode_group_members ms ≡ ok members)
    × (encode_group_members members ≡ ok ms)

cons-HasGroupMembers :
    (m : MemberMessage) (ms : List MemberMessage)
    → HasGroupMember m
    → HasGroupMembers ms
    → HasGroupMembers (m ∷ ms)
unfolding encode_group_members decode_group_members
cons-HasGroupMembers m ms (member, d, a) (members, ds, again) =
    (member ∷ members, rw (d, ds) refl, rw (a, again) refl)

group_members_again :
    (members : List Member) {ms : List MemberMessage}
    → encode_group_members members ≡ ok ms
    → HasGroupMembers ms
unfolding encode_group_members decode_group_members encode_group_member
group_members_again [] {ms} e =
    let same : ms ≡ [] = ground arith in subst HasGroupMembers (sym same) ([], refl, refl)
group_members_again (member ∷ members) {ms} e =
    let (m, e1, e2) = >>=-eq-ok (encode_group_member member) _ e in
    let (others, e3, e4) = >>=-eq-ok (encode_group_members members) _ e2 in
    let same : ms ≡ m ∷ others = ground arith in
    subst HasGroupMembers (sym same) (
      cons-HasGroupMembers m others (weighted-HasGroupMember member.member_id member.weight e1)
        (group_members_again members e3))

abbrev HasSomeMembers : List MemberMessage → Type 0
HasSomeMembers ms =
    (members : Option (List Member)) × (decode_some_members ms ≡ ok members)
    × (encode_some_members members ≡ ok ms)

members-HasSomeMembers : (ms : List MemberMessage) → HasGroupMembers ms → HasSomeMembers ms
unfolding decode_some_members encode_some_members
members-HasSomeMembers [] h = (none, refl, refl)
members-HasSomeMembers (m ∷ ms) (members, decoded, again) = (some members, rw decoded refl, again)

some_members_again :
    (members : Option (List Member)) {ms : List MemberMessage}
    → encode_some_members members ≡ ok ms
    → HasSomeMembers ms
unfolding encode_some_members decode_some_members
some_members_again none {ms} e =
    let same : ms ≡ [] = ground arith in subst HasSomeMembers (sym same) (none, refl, refl)
some_members_again (some members) {ms} e = members-HasSomeMembers ms (group_members_again members e)

abbrev HasGroup : Option (Resource (Unit {0})) → ProfileGroupMessage → Type 0
HasGroup = HasParts group_message group_of (λ e. e.action_profile_id) (λ m. m.action_profile_id)

group_parts :
    (e : ProfileGroup) (r : Option (Resource (Unit {0}))) (m : ProfileGroupMessage)
    → group_message r e ≡ ok m
    → HasGroup r m
unfolding group_message group_of encode_some_members decode_some_members
group_parts e none m sent =
    let same : m ≡ record { action_profile_id = 0; group_id = 0; members = []; max_size = pos 0 } =
      ground arith in
    subst (HasGroup none) (sym same) (record {
      entry = record { action_profile_id = []; group_id = 0; max_size = pos 0; members = none };
      numbered = refl;
      aliased = refl;
      decoded = refl;
      again = refl;
    })
group_parts e (some r) m sent =
    let (ms, e1, e2) = >>=-eq-ok (encode_some_members e.members) _ sent in
    let (members, decoded, again) = some_members_again e.members e1 in
    let same : m ≡ record {
      action_profile_id = r.id;
      group_id = e.group_id;
      members = ms;
      max_size = e.max_size;
    } =
      ground arith in
    subst (HasGroup (some r)) (sym same) (record {
      entry = record {
        action_profile_id = r.alias;
        group_id = e.group_id;
        max_size = e.max_size;
        members = members;
      };
      numbered = refl;
      aliased = refl;
      decoded = rw decoded refl;
      again = rw again refl;
    })

pub group_again :
    (s : Schema) (e : ProfileGroup) {m : ProfileGroupMessage}
    → AreResources s.action_profiles
    → encode_group s e ≡ ok m
    → (e' : ProfileGroup) × (decode_group s m ≡ ok e') × (encode_group s e' ≡ ok m)
unfolding encode_group decode_group
group_again s e h sent =
    entry_again group_message group_of (λ e. e.action_profile_id) (λ m. m.action_profile_id)
      s.action_profiles e h (λ r m found sent. group_parts e r m sent) sent
