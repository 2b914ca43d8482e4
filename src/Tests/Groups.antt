-- ===== src/Tests/Groups.antt =====
-- Types and groupids at a small site.
use subtask.Base.{◌≡◌, refl, some, ok, err, nat_eq, string_eq}
use subtask.Models.{Group}
use subtask.Groups.{
  value_error, is_id_char, is_newline, get_type, set_type, validate_name, split_groupid,
  get_groupid, set_groupid,
}
use subtask.Groups.Groupid.{IsId, set_groupid-get_groupid}
use subtask.Tests.Data.{team, world_group}

abbrev opened : Group
opened = record team {
  joinable_by = world_group.joinable_by;
  readable_by = world_group.readable_by;
  writeable_by = world_group.writeable_by;
}

set_type-open : set_type "open" team ≡ ok opened
unfolding set_type string_eq
set_type-open = refl

set_type-unknown : set_type "secret" team ≡ err value_error
unfolding set_type string_eq
set_type-unknown = refl

team-private : get_type team ≡ ok "private"
unfolding get_type
team-private = refl

names :
    (validate_name "ab" ≡ err value_error)
    × (validate_name "abc" ≡ ok "abc")
    × (validate_name "abcdefghijklmnopqrstuvwxyz" ≡ err value_error)
unfolding validate_name
names = (refl, refl, refl)

team-groupid : get_groupid team ≡ some "group:t1@example.com"
unfolding get_groupid
team-groupid = refl

split_team : split_groupid "group:t1@example.com" ≡ ok ("t1", "example.com")
unfolding split_groupid is_id_char is_newline nat_eq string_eq
split_team = refl

t1-IsId : IsId "t1"
unfolding is_id_char nat_eq string_eq
t1-IsId = (refl, refl, refl)

set_groupid-get_groupid_example : set_groupid (get_groupid team) team ≡ ok team
unfolding is_newline nat_eq
set_groupid-get_groupid_example = set_groupid-get_groupid team "t1" refl t1-IsId refl
