-- ===== src/Tests/Ids.antt =====
-- A flake id, a timeframe of two documents, and a feature.
use subtask.Base.{
  ℕ, String, ◌≡◌, ◌≤◌, refl, Bool, true, false, Option, none, some, List, [], ◌∷◌, All, ok, err,
  ◌>>=◌, ◌*◌, ◌==◌, nat_eq, string_eq, text_length, if◌then◌else◌, arith, leb,
}
use subtask.Annotations.Ids.{
  has_magic_byte, remove_magic_byte, stripped, url_safe_to_hex, hex_to_url_safe, invalid_uuid,
}
use subtask.Annotations.Ids.RoundTrip.{IsCodecOf, url_safe_to_hex-hex_to_url_safe}
use subtask.Activity.{Activity, bucket}
use subtask.Activity.Bucketed.{IsWithin, count, count_timeframes, bucket-IsWithin}
use subtask.Services.Feature.{Feature, FeatureUser, FeatureService, enabled}

-- The last of the bytes is 0x30, and the digits at 12 and 16 are the magic byte.
abbrev flake : String
flake = "aaaaaaaaaaaae14f5aaaaaaaaaaaaa30"

abbrev encode : String → String
encode hex = "qqqqqqqqFPqqqqqqqqow"

abbrev decode : String → Option String
decode value = if value == "qqqqqqqqFPqqqqqqqqow" then some (remove_magic_byte flake) else none

removed : remove_magic_byte flake ≡ "aaaaaaaaaaaa14faaaaaaaaaaaaa30"
unfolding remove_magic_byte
removed = refl

flake-IsCodecOf :
    IsCodecOf decode text_length encode (stripped flake) (if has_magic_byte flake then 20 else 22)
unfolding has_magic_byte string_eq
flake-IsCodecOf = record { decoded = refl; bytes = refl }

url_safe_to_hex-hex_to_url_safe_example :
    (hex_to_url_safe (λ s. some s) encode flake >>= url_safe_to_hex decode text_length) ≡ ok flake
url_safe_to_hex-hex_to_url_safe_example =
    url_safe_to_hex-hex_to_url_safe decode text_length encode (λ s. some s) flake refl refl
      flake-IsCodecOf

refused : url_safe_to_hex decode text_length "abc" ≡ err invalid_uuid
unfolding url_safe_to_hex string_eq nat_eq
refused = refl

abbrev day : ℕ
day = 86400

abbrev activity : String → ℕ → ℕ → Activity
activity id updated document = record {
  id = id;
  updated = updated;
  document = document;
  userid = "acct:a@x";
  tags = "t" ∷ [];
}

abbrev activities : List Activity
activities =
    activity "n1" (95 * 86400) 1
    ∷ activity "n2" (94 * 86400) 2
    ∷ activity "n3" (93 * 86400) 1
    ∷ activity "n4" (35 * 86400) 1
    ∷ []

-- Months of thirty days
abbrev month_start : ℕ → ℕ
month_start t =
    if leb (60 * 86400) t then 60 * 86400 else if leb (30 * 86400) t then 30 * 86400 else 0

month_bound : (t : ℕ) → month_start t ≤ t
month_bound t = ground arith

bucket-IsWithin_example :
    All IsWithin (bucket month_start (λ t. "month") (96 * 86400) activities)
    × ((test : Activity → Bool)
        → count_timeframes test (bucket month_start (λ t. "month") (96 * 86400) activities)
          ≡ count test activities)
bucket-IsWithin_example =
    bucket-IsWithin month_start (λ t. "month") month_bound (96 * 86400) activities

abbrev feature : Feature
feature = record {
  name = "beta";
  everyone = false;
  first_party = true;
  admins = false;
  staff = false;
  cohorts = [];
}

abbrev features : FeatureService
features = record {
  default_authority = some "x";
  overrides = none;
  table = feature ∷ [];
  loaded = none;
}

abbrev user : FeatureUser
user = record { authority = "x"; admin = false; staff = false; cohorts = [] }

is_on : (enabled "beta" (some user) features).0 ≡ ok true
unfolding enabled string_eq
is_on = refl

is_off : (enabled "beta" none features).0 ≡ ok false
unfolding enabled string_eq
is_off = refl
