-- ===== src/Groups/Flags.antt =====
-- The type of a group and its three flags.
use text.Mathlib.TextEquality.{eq_iff}
use subtask.Base.{String, ◌≡◌, ◌≢◌, not, ◌==◌, string_eq, ok, arith}
use subtask.Models.{Group}
use subtask.Groups.{get_type, set_type, is_public}

private_not_open : ◌≢◌ {A = String} "private" "open"
private_not_open = ground (arith, eq_iff "private" "open")

restricted_not_open : ◌≢◌ {A = String} "restricted" "open"
restricted_not_open = ground (arith, eq_iff "restricted" "open")

restricted_not_private : ◌≢◌ {A = String} "restricted" "private"
restricted_not_private = ground (arith, eq_iff "restricted" "private")

-- A group that was given a type has that type.
pub get_type-set_type :
    (value : String) (g : Group) {g' : Group} → set_type value g ≡ ok g' → get_type g' ≡ ok value
unfolding set_type get_type
get_type-set_type value g h = ground arith

-- To give a group the type that it has changes nothing.
pub set_type-get_type :
    (g : Group) {value : String} → get_type g ≡ ok value → set_type value g ≡ ok g
unfolding set_type get_type
set_type-get_type g h =
    ground (arith, private_not_open, restricted_not_open, restricted_not_private)

-- A group that has a type is public unless the type is "private".
pub is_public-get_type :
    (g : Group) {value : String} → get_type g ≡ ok value → is_public g ≡ not (value == "private")
unfolding get_type is_public
is_public-get_type g h =
    ground (arith, private_not_open, restricted_not_open, restricted_not_private)
