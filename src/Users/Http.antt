-- ===== src/Users/Http.antt =====
-- internal/users/handler.go: what each route answers. The framework's part is given: the id that the
-- middleware attached, and the uuid and the body that it parsed, each `none` when absent or
-- malformed. Messages and logs are left out, and times are not formatted.
use billiards_online.Base.{ℕ, Option, none, some, Text}
use billiards_online.Users.Model.{
  Account, PublicProfile, UpdateProfileInput, Error, not_found, invalid_display, invalid_avatar,
  display_name,
}
use billiards_online.Users.Service as Service
use billiards_online.Http.{answer}
use billiards_online.Postgres.{World}

-- The code of an error's body.
pub data Code : Type 0 where
  users_not_found users_invalid_id users_invalid_request users_invalid_display_name : Code
  users_invalid_avatar_ref code_internal : Code

-- `accountResponse`
pub record AccountResponse : Type 0 where
  pub id : ℕ
  pub email : Text
  pub handle : Text
  pub display_name : Text
  pub avatar_ref : Option Text
  pub matches_played : ℕ
  pub wins : ℕ
  pub losses : ℕ
  pub created_at : ℕ

unfoldable pub to_account_response : Account → AccountResponse
unfolding display_name
to_account_response a = record {
  id = a.user.id;
  email = a.user.email;
  handle = a.user.handle;
  display_name = display_name a;
  avatar_ref = a.profile.avatar_ref;
  matches_played = a.profile.matches_played;
  wins = a.profile.wins;
  losses = a.profile.losses;
  created_at = a.user.created_at;
}

pub data Body : Type 0 where
  error_code : Code → Body
  account_body : AccountResponse → Body
  profile_body : PublicProfile → Body

pub record Reply : Type 0 where
  pub status : ℕ
  pub body : Body

abbrev pub reply : ℕ → Body → Reply
reply s b = record { status = s; body = b }

abbrev pub bad_request : Code → Reply
bad_request c = reply 400 (error_code c)

abbrev pub internal_error : Reply
internal_error = reply 500 (error_code code_internal)

unfoldable pub account_reply : Account → Reply
unfolding to_account_response
account_reply a = reply 200 (account_body (to_account_response a))

abbrev pub on_error : Error → Reply
on_error e = internal_error

unfoldable pub me : Option ℕ → World → Reply × World
unfolding answer account_reply
me none w = (internal_error, w)
me (some uid) w = answer (Service.account uid) account_reply on_error w

unfoldable pub write_update_error : Error → Reply
write_update_error invalid_display = bad_request users_invalid_display_name
write_update_error invalid_avatar = bad_request users_invalid_avatar_ref
write_update_error not_found = reply 404 (error_code users_not_found)
write_update_error _ = internal_error

unfoldable pub update_me : Option ℕ → Option UpdateProfileInput → World → Reply × World
unfolding answer account_reply write_update_error
update_me none body w = (internal_error, w)
update_me (some uid) none w = (bad_request users_invalid_request, w)
update_me (some uid) (some input) w =
    answer (Service.update_profile uid input) account_reply write_update_error w

unfoldable pub write_profile_error : Error → Reply
write_profile_error not_found = reply 404 (error_code users_not_found)
write_profile_error _ = internal_error

unfoldable pub by_id : Option ℕ → World → Reply × World
unfolding answer write_profile_error
by_id none w = (bad_request users_invalid_id, w)
by_id (some uid) w =
    answer (Service.public uid) (λ p. reply 200 (profile_body p)) write_profile_error w
