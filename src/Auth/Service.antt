-- ===== src/Auth/Service.antt =====
-- internal/auth/service.go. What is only logged, and the time that `DummyVerify` spends, are left
-- out.
use billiards_online.Base.{
  ℕ, ◌+◌, Bool, false, Option, none, some, [], ◌∷◌, Text, ltb, if◌then◌else◌,
}
use billiards_online.Users.Model.{User, normalize_email}
use billiards_online.Users.Service as Users
use billiards_online.Security.Crypto.{Crypto}
use billiards_online.Security.Password.{hash_password, verify_password, needs_rehash}
use billiards_online.Security.Token.{new_token, hash_token}
use billiards_online.Auth.Model.{
  Error, invalid_credentials, unauthenticated, internal, users_error, password_error, Identity,
  Login, session_ttl, session_renew_threshold,
}
use billiards_online.Auth.Repository.{
  insert_credential, update_credential, select_credential_by_email, insert_session,
  select_live_session, revoke_session, revoke_all_for_user, touch_session, delete_expired_sessions,
}
use billiards_online.Postgres.{
  M, Handle, pool, ◌>>=◌, ◌>>◌, pure, raise, guard, asks, catch, map_err, in_tx, new_uuid, time_now,
}

-- An error that is only logged.
abbrev pub or_else : {A : Type 0} → A → Error → M Error A
or_else a e = pure a

-- An unreadable hash is answered like a wrong password.
unfoldable pub password_ok : Option Bool → Bool
password_ok none = false
password_ok (some b) = b

-- Sliding expiry; a renewal that fails is only logged.
unfoldable pub renew : ℕ → ℕ → M Error ℕ
renew sid expires_at = do
  now ← time_now
  if ltb expires_at (now + session_renew_threshold)
      then (time_now >>= λ later.
          catch (touch_session pool sid (later + session_ttl) >> pure (later + session_ttl))
            (or_else expires_at))
      else pure expires_at

module _ (c : Crypto) where
  unfoldable pub issue_session : User → M Error Login
  issue_session user = do
    token ← new_token c internal
    id ← new_uuid internal
    now ← time_now
    insert_session pool id user.id (hash_token c token) (now + session_ttl)
    pure (record { user = user; token = token; expires_at = now + session_ttl })

  unfoldable pub signup_in_tx : (Text → Text) → Text → Text → Text → Handle → M Error User
  signup_in_tx sql_lower email handle hash db = do
    user ← map_err users_error (Users.create sql_lower db email handle)
    insert_credential db user.id hash
    pure user

  unfoldable pub signup : (Text → Text) → Text → Text → Text → M Error Login
  unfolding signup_in_tx issue_session
  signup sql_lower email handle password = do
    hash ← map_err password_error (hash_password c password)
    user ← in_tx internal pool (signup_in_tx sql_lower email handle hash)
    issue_session user

  -- The upgrade of a hash; a failure of it is only logged.
  unfoldable pub upgrade : Text → ℕ → M Error (Unit {0})
  upgrade password uid =
      catch
        (map_err password_error (hash_password c password) >>= λ hash.
          update_credential pool uid hash)
        (or_else tt)

  unfoldable pub rehash : Text → Text → ℕ → M Error (Unit {0})
  unfolding upgrade
  rehash password stored uid = if needs_rehash c stored then upgrade password uid else pure tt

  unfoldable pub login : Text → Text → M Error Login
  unfolding normalize_email password_ok rehash issue_session
  login email password = do
    lower ← asks (λ env. env.lower)
    cred ← select_credential_by_email pool (normalize_email lower email)
    guard (password_ok (verify_password c password cred.password_hash)) invalid_credentials
    user ← map_err users_error (Users.by_id cred.user_id)
    rehash password cred.password_hash user.id
    issue_session user

  unfoldable pub resolve : Text → M Error Identity
  unfolding renew
  resolve token = do
    live ← select_live_session pool (hash_token c token)
    expires_at ← renew live.session.id live.session.expires_at
    pure (record {
      user_id = live.session.user_id;
      session_id = live.session.id;
      handle = live.handle;
      expires_at = expires_at;
    })

  unfoldable pub authenticate : Text → M Error Identity
  unfolding resolve
  authenticate [] = raise unauthenticated
  authenticate (b ∷ bs) = resolve (b ∷ bs)

unfoldable pub logout : ℕ → M Error (Unit {0})
logout sid = revoke_session pool sid >>= λ _. pure tt

unfoldable pub logout_all : ℕ → M Error ℕ
logout_all uid = revoke_all_for_user pool uid

unfoldable pub purge_expired_sessions : M Error ℕ
purge_expired_sessions = delete_expired_sessions pool
