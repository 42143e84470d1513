-- ===== src/Users/Tests.antt =====
-- Accounts at concrete inputs.
use mathlib.Core.Logic.{◌↔◌}
use billiards_online.Base.{◌≡◌, refl, true, false, some, none, [], ◌∷◌, Text, ok, any}
use billiards_online.Users.Model as Model
use billiards_online.Users.Model.{User, Profile, Account, UpdateProfileInput, validate_display_name}
use billiards_online.Users.Edited.{EditedFrom, update_profile-EditedFrom}
use billiards_online.Users.Repository as Repository
use billiards_online.Users.Repository.{select_account}
use billiards_online.Users.Statements.{q_update_profile, q_account_by_id, user_is}
use billiards_online.Users.Service.{update_profile}
use billiards_online.Base.{find, update, trim_space}
use billiards_online.Postgres.{◌>>=◌, query}
use billiards_online.Users.Model.{
  validate_email, validate_handle, email_re, domain_re, handle_re, all_word,
}
use billiards_online.Users.Statements.{handle_shape, has_profile}
use billiards_online.Users.Service.{account, public, create}
use billiards_online.Users.Shapes.{validate_handle-shape}
use billiards_online.Users.Profiles.{seen, public-account}
use billiards_online.Users.Invariant.{Accounts, create-Accounts}
use billiards_online.Schema.{has_user}
use billiards_online.Postgres.{pool, World}

abbrev address : Text
address = b'a' ∷ b'@' ∷ b'b' ∷ b'.' ∷ b'c' ∷ []

abbrev nick : Text
nick = b'B' ∷ b'o' ∷ b'b' ∷ []

abbrev vacant : World
vacant = record {
  env = record {
    fails = λ n. false;
    clock = λ n. n;
    new_uuid = λ n. some 4;
    random = λ n k. none;
    upper = λ c. c;
    lower = λ c. c;
  };
  tick = 0;
  tables = record {
    users = [];
    profiles = [];
    credentials = [];
    sessions = [];
    rooms = [];
    members = [];
    matches = [];
    match_sides = [];
    participants = [];
  };
  registry = none;
}

vacant-Accounts : Accounts (λ s. s) vacant.tables
unfolding any has_user has_profile
vacant-Accounts = record { users_distinct = tt; profiles_distinct = tt; one_profile = λ uid. refl }

create-Accounts_example : Accounts (λ s. s) (create (λ s. s) pool address nick vacant).1.tables
create-Accounts_example = create-Accounts (λ s. s) pool address nick vacant vacant-Accounts

-- The user that was registered is found.
public-account_example : public 4 (create (λ s. s) pool address nick vacant).1 ≡ (
  seen Model.public (account 4 (create (λ s. s) pool address nick vacant).1).0,
  (account 4 (create (λ s. s) pool address nick vacant).1).1,
)
public-account_example = public-account 4 (create (λ s. s) pool address nick vacant).1

validate_handle-shape_example : (validate_handle nick ≡ ok tt) ↔ (handle_shape nick ≡ true)
validate_handle-shape_example = validate_handle-shape nick

-- A user without a profile text gives a name with spaces around it.
abbrev bob : User
bob = record { id = 4; email = address; handle = nick; created_at = 0; updated_at = 0 }

abbrev blank : Profile
blank = record {
  user_id = 4;
  display_name = none;
  avatar_ref = none;
  matches_played = 0;
  wins = 0;
  losses = 0;
  updated_at = 0;
}

abbrev settled : World
settled = record vacant {
  tables = record vacant.tables { users = bob ∷ []; profiles = blank ∷ [] };
}

abbrev new_name : UpdateProfileInput
new_name = record { display_name = some (b' ' ∷ b'B' ∷ b'o' ∷ b' ' ∷ []); avatar_ref = none }

abbrev renamed : Account
renamed = record {
  user = bob;
  profile = record blank { display_name = some (b'B' ∷ b'o' ∷ []); updated_at = 0 };
}

rename_ok : (update_profile 4 new_name settled).0 ≡ ok renamed
unfolding update_profile ◌>>=◌ Repository.update_profile account select_account query find
    q_update_profile q_account_by_id user_is trim_space validate_display_name update
rename_ok = refl

update_profile-EditedFrom_example :
    EditedFrom 4 new_name settled.tables renamed (update_profile 4 new_name settled).1.tables
update_profile-EditedFrom_example = update_profile-EditedFrom 4 new_name settled renamed rename_ok
