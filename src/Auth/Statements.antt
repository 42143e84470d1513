-- ===== src/Auth/Statements.antt =====
-- The SQL of internal/auth/repository.go, over the tables and constraints of
-- migrations/000002_auth.up.sql.
use billiards_online.Base.{
  ℕ, ◌+◌, ◌*◌, Bool, true, false, not, ◌&&◌, ◌||◌, Option, none, some, List, ◌∷◌, Text, text_eq,
  codes, starts_with, ltb, ◌==◌, if◌then◌else◌, length, any, count, find, select, update, ok, err,
}
use billiards_online.Users.Model.{User}
use billiards_online.Users.Statements.{user_is, one}
use billiards_online.Auth.Model.{hour}
use billiards_online.Schema.{
  Credential, Session, unique_violation, check_violation, foreign_key_violation, credentials_pkey,
  sessions_pkey, sessions_token_hash_key, has_user,
}
use billiards_online.Postgres.{Statement}

unfoldable pub credential_of : ℕ → Credential → Bool
credential_of uid c = c.user_id == uid

-- credentials_hash_is_argon2id
unfoldable pub hash_check : Text → Bool
unfolding starts_with
hash_check hash = starts_with (codes "$argon2id$") hash

unfoldable pub has_credential : ℕ → List Credential → Bool
unfolding credential_of
has_credential uid = any (credential_of uid)

-- qInsertCredential
unfoldable pub q_insert_credential : ℕ → Text → Statement (Unit {0})
unfolding hash_check has_credential has_user
q_insert_credential uid hash ts t =
    if not (hash_check hash)
    then err check_violation
    else if has_credential uid t.credentials
    then err (unique_violation credentials_pkey)
    else if not (has_user uid t.users)
    then err foreign_key_violation
    else ok (
      tt,
      record t { credentials = record { user_id = uid; password_hash = hash } ∷ t.credentials },
    )

-- qUpdateCredential; its CHECK is violated only if there is a row to update.
unfoldable pub q_update_credential : ℕ → Text → Statement (Unit {0})
unfolding hash_check has_credential credential_of
q_update_credential uid hash ts t =
    if has_credential uid t.credentials && not (hash_check hash)
    then err check_violation
    else ok (
      tt,
      record t {
        credentials =
            update (credential_of uid) (λ c. record c { password_hash = hash }) t.credentials;
      },
    )

-- The credential of the user who is found, if both are there.
unfoldable pub credential_for : Option User → List Credential → Option Credential
unfolding credential_of
credential_for none cs = none
credential_for (some u) cs = find (credential_of u.id) cs

-- qCredentialByEmail
unfoldable pub q_credential_by_email : Text → Statement Credential
unfolding credential_for
q_credential_by_email email ts t =
    one (credential_for (find (λ u. text_eq email u.email) t.users) t.credentials) t

unfoldable pub session_is : ℕ → Session → Bool
session_is sid s = s.id == sid

unfoldable pub token_is : List ℕ → Session → Bool
token_is hash s = text_eq hash s.token_hash

abbrev pub is_none : Option ℕ → Bool
is_none none = true
is_none (some x) = false

abbrev pub new_session : ℕ → ℕ → List ℕ → ℕ → ℕ → Session
new_session id uid hash now expires = record {
  id = id;
  user_id = uid;
  token_hash = hash;
  created_at = now;
  last_seen_at = now;
  expires_at = expires;
  revoked_at = none;
}

-- qInsertSession, with sessions_token_hash_is_sha256 and sessions_expires_after_created
unfoldable pub q_insert_session : ℕ → ℕ → List ℕ → ℕ → Statement (Unit {0})
unfolding session_is token_is has_user
q_insert_session id uid hash expires ts t =
    if not (length hash == 32) || not (ltb ts.now expires)
    then err check_violation
    else if any (session_is id) t.sessions
    then err (unique_violation sessions_pkey)
    else if any (token_is hash) t.sessions
    then err (unique_violation sessions_token_hash_key)
    else if not (has_user uid t.users)
    then err foreign_key_violation
    else ok (tt, record t { sessions = new_session id uid hash ts.now expires ∷ t.sessions })

-- Liveness at a time: neither revoked nor expired.
unfoldable pub live_at : ℕ → Session → Bool
live_at now s = is_none s.revoked_at && ltb now s.expires_at

unfoldable pub live_token : List ℕ → ℕ → Session → Bool
unfolding token_is live_at
live_token hash now s = token_is hash s && live_at now s

-- `liveSession`: a session with its user's handle
pub record LiveSession : Type 0 where
  pub session : Session
  pub handle : Text

unfoldable pub with_handle : Session → Option User → Option LiveSession
with_handle s none = none
with_handle s (some u) = some (record { session = s; handle = u.handle })

unfoldable pub join_user : List User → Option Session → Option LiveSession
unfolding with_handle user_is
join_user us none = none
join_user us (some s) = with_handle s (find (user_is s.user_id) us)

-- qLiveSessionByToken
unfoldable pub q_live_session_by_token : List ℕ → Statement LiveSession
unfolding live_token join_user
q_live_session_by_token hash ts t =
    one (join_user t.users (find (live_token hash ts.now) t.sessions)) t

-- The rows that a revocation changes.
unfoldable pub live_session_is : ℕ → Session → Bool
unfolding session_is
live_session_is sid s = session_is sid s && is_none s.revoked_at

unfoldable pub live_session_of : ℕ → Session → Bool
live_session_of uid s = (s.user_id == uid) && is_none s.revoked_at

abbrev pub revoke : ℕ → Session → Session
revoke now s = record s { revoked_at = some now }

-- qRevokeSession, with the number of rows affected
unfoldable pub q_revoke_session : ℕ → Statement ℕ
unfolding live_session_is
q_revoke_session sid ts t = ok (
  count (live_session_is sid) t.sessions,
  record t { sessions = update (live_session_is sid) (revoke ts.now) t.sessions },
)

-- qRevokeAllForUser
unfoldable pub q_revoke_all_for_user : ℕ → Statement ℕ
unfolding live_session_of
q_revoke_all_for_user uid ts t = ok (
  count (live_session_of uid) t.sessions,
  record t { sessions = update (live_session_of uid) (revoke ts.now) t.sessions },
)

-- qTouchSession, with sessions_expires_after_created on the row that is updated
unfoldable pub expires_too_soon : ℕ → ℕ → Session → Bool
unfolding session_is
expires_too_soon sid expires s = session_is sid s && not (ltb s.created_at expires)

unfoldable pub q_touch_session : ℕ → ℕ → Statement (Unit {0})
unfolding session_is expires_too_soon
q_touch_session sid expires ts t =
    if any (expires_too_soon sid expires) t.sessions
    then err check_violation
    else ok (
      tt,
      record t {
        sessions =
            update (session_is sid) (λ s. record s { last_seen_at = ts.now; expires_at = expires })
              t.sessions;
      },
    )

-- expires_at < now() - interval '30 days'
unfoldable pub long_dead : ℕ → Session → Bool
long_dead now s = ltb (s.expires_at + 30 * 24 * hour) now

-- qDeleteExpiredSessions
unfoldable pub q_delete_expired_sessions : Statement ℕ
unfolding long_dead
q_delete_expired_sessions ts t = ok (
  count (long_dead ts.now) t.sessions,
  record t { sessions = select (λ s. not (long_dead ts.now s)) t.sessions },
)
