-- ===== src/Auth/Tests.antt =====
-- Sessions at concrete inputs.
use billiards_online.Security.RateLimit.{allow_at}
use billiards_online.Security.RateLimit.Tests.{whole, two_at_once, no_buckets}
use billiards_online.Auth.Limited.{
  Request, login_form, login_action, limit_key, same_action, Served, post_all, allow_at_unmoved,
}
use mathlib.Core.List.{Memᴰ}
use billiards_online.Base.{
  starts_with, ℕ, ◌+◌, ◌≡◌, refl, false, true, none, some, List, [], ◌∷◌, Text, codes, replicate,
  ok, ◌==◌, any, find, update, to_lower, lower_char, trim_space, trim_left, text_eq,
}
use billiards_online.Users.Model.{User, normalize_email}
use billiards_online.Users.Statements.{q_user_by_id}
use billiards_online.Users.Repository.{select_user}
use billiards_online.Users.Service.{by_id}
use billiards_online.Schema.{Tables, Session, Credential, has_user}
use billiards_online.Security.Crypto.{version_text, params_text}
use billiards_online.Security.Token.{hash_token, new_token}
use billiards_online.Security.Password.{phc, verify_password, needs_rehash}
use billiards_online.Security.Tests.{toy, calm, empty, good_password, stored, fill}
use billiards_online.Auth.Model.{Login, Identity, session_ttl}
use billiards_online.Auth.Statements.{
  q_credential_by_email, q_insert_session, session_is, new_session, q_revoke_session,
  q_live_session_by_token, has_credential, credential_of,
}
use billiards_online.Auth.Repository.{
  select_credential_by_email, insert_session, revoke_session, select_live_session,
}
use billiards_online.Auth.Service.{login, authenticate, logout, resolve, renew}
use billiards_online.Auth.Run.{Call, run, logout-final}
use billiards_online.Auth.Logins.{Logins, run-Logins}
use billiards_online.Auth.Issued.{Issued}
use billiards_online.Auth.Access.{Opens, authenticate_sound, login_sound}
use billiards_online.Auth.Admission.{login-authenticate}
use billiards_online.Postgres.{rand_read, new_uuid, World, ◌>>=◌, query, time_now}

abbrev pub alice : User
alice = record {
  id = 1;
  email = codes "a@b.c";
  handle = codes "alice";
  created_at = 0;
  updated_at = 0;
}

abbrev pub a_token : Text
a_token = 9 ∷ []

abbrev pub far : ℕ
far = 10000000000000000

-- Alice's account, her password and two sessions of hers.
abbrev pub house : Tables
house = record empty {
  users = alice ∷ [];
  credentials = record { user_id = 1; password_hash = stored } ∷ [];
  sessions =
      new_session 5 1 (fill 32 a_token) 0 far ∷ new_session 6 1 (fill 32 (8 ∷ [])) 0 far ∷ [];
}

abbrev pub at_house : World
at_house = record { env = calm; tick = 0; tables = house; registry = none }

abbrev out : World
out = (logout 5 at_house).1

abbrev other_call : List Call
other_call = Call.authenticate (7 ∷ []) ∷ []

logout-final_example : (6 == 5) ≡ false
unfolding any session_is logout revoke_session q_revoke_session run authenticate resolve
    select_live_session q_live_session_by_token renew ◌>>=◌ query hash_token find update text_eq
    time_now
logout-final_example =
    logout-final toy (λ s. s) 5 at_house other_call (8 ∷ [])
      (record { user_id = 1; session_id = 6; handle = codes "alice"; expires_at = far }) refl refl
      refl

house-Logins : Logins house
unfolding has_credential has_user any credential_of
house-Logins uid = refl

run-Logins_example : Logins (run toy (λ s. s) at_house (Call.logout_all 1 ∷ other_call)).tables
run-Logins_example = run-Logins toy (λ s. s) at_house (Call.logout_all 1 ∷ other_call) house-Logins

abbrev pub as_alice : Identity
as_alice = record { user_id = 1; session_id = 5; handle = codes "alice"; expires_at = far }

authenticate_sound_example :
    (s : Session) × Memᴰ s house.sessions × Opens toy a_token 0 s × (5 ≡ s.id) × (1 ≡ s.user_id)
unfolding authenticate resolve select_live_session q_live_session_by_token renew ◌>>=◌ query
    hash_token find text_eq time_now
authenticate_sound_example = authenticate_sound toy a_token at_house as_alice refl

abbrev typed : Text
typed = codes " A@b.c "

abbrev logged_in : Login
logged_in = record { user = alice; token = replicate 32 7; expires_at = 4000000 + session_ttl }

login_ok : (login toy typed good_password at_house).0 ≡ ok logged_in
unfolding login ◌>>=◌ query find text_eq time_now select_credential_by_email q_credential_by_email
    to_lower trim_space trim_left verify_password phc version_text params_text by_id select_user
    q_user_by_id needs_rehash new_token rand_read new_uuid insert_session q_insert_session any
    has_user lower_char starts_with hash_token
login_ok = refl

login_sound_example :
    (u : User) × (cred : Credential) × Memᴰ u house.users
    × (u.email ≡ normalize_email calm.lower typed)
    × Memᴰ cred house.credentials
    × (cred.user_id ≡ u.id)
    × (verify_password toy good_password cred.password_hash ≡ some true)
    × (logged_in.user.id ≡ u.id)
    × Issued toy logged_in (login toy typed good_password at_house).1.tables
login_sound_example = login_sound toy typed good_password at_house logged_in login_ok

login-authenticate_example :
    (i : Identity) × ((authenticate toy
        (replicate 32 7)
        (login toy typed good_password at_house).1).0
      ≡ ok i)
    × (i.user_id ≡ 1)
unfolding login ◌>>=◌ query find text_eq time_now select_credential_by_email q_credential_by_email
    to_lower trim_space trim_left verify_password phc version_text params_text by_id select_user
    q_user_by_id needs_rehash new_token rand_read new_uuid insert_session q_insert_session any
    has_user lower_char starts_with hash_token
login-authenticate_example =
    login-authenticate toy typed good_password at_house logged_in login_ok (λ e. cc e) refl refl

-- One client tries two logins with bodies that cannot be parsed, and a third that is refused.
abbrev hammering : List Request
hammering = replicate 3 (record { client = codes "a"; now = 0; form = login_form none })

abbrev untried : Served whole two_at_once toy true (λ s. s)
untried = record { buckets = no_buckets; world = at_house }

allow_at_unmoved_example :
    (allow_at whole two_at_once
      (limit_key login_action (codes "b"))
      0
      (post_all whole two_at_once toy true (λ s. s) hammering untried).buckets).0
    ≡ (allow_at whole two_at_once (limit_key login_action (codes "b")) 0 no_buckets).0
unfolding same_action text_eq
allow_at_unmoved_example =
    allow_at_unmoved whole two_at_once toy true (λ s. s) login_action (codes "b") hammering untried
      0 (refl, (refl, (refl, tt)))
