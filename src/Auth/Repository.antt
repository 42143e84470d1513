-- ===== src/Auth/Repository.antt =====
-- The functions of internal/auth/repository.go.
use billiards_online.Base.{ℕ, Bool, List, Text, ltb}
use billiards_online.Auth.Model.{Error, invalid_credentials, unauthenticated, internal}
use billiards_online.Auth.Statements.{
  q_insert_credential, q_update_credential, q_credential_by_email, q_insert_session,
  q_live_session_by_token, q_revoke_session, q_revoke_all_for_user, q_touch_session,
  q_delete_expired_sessions, LiveSession,
}
use billiards_online.Schema.{PgError, no_rows, Credential}
use billiards_online.Postgres.{M, Handle, ◌>>=◌, pure, map_err, exec, query}

abbrev pub wrapped : PgError → Error
wrapped e = internal

abbrev pub no_rows_as : Error → PgError → Error
no_rows_as e no_rows = e
no_rows_as e _ = internal

unfoldable pub insert_credential : Handle → ℕ → Text → M Error (Unit {0})
insert_credential db uid hash = map_err wrapped (exec db (q_insert_credential uid hash))

unfoldable pub update_credential : Handle → ℕ → Text → M Error (Unit {0})
update_credential db uid hash = map_err wrapped (exec db (q_update_credential uid hash))

unfoldable pub select_credential_by_email : Handle → Text → M Error Credential
select_credential_by_email db email =
    query wrapped (no_rows_as invalid_credentials) db (q_credential_by_email email)

unfoldable pub insert_session : Handle → ℕ → ℕ → List ℕ → ℕ → M Error (Unit {0})
insert_session db id uid hash expires =
    map_err wrapped (exec db (q_insert_session id uid hash expires))

unfoldable pub select_live_session : Handle → List ℕ → M Error LiveSession
select_live_session db hash =
    query wrapped (no_rows_as unauthenticated) db (q_live_session_by_token hash)

unfoldable pub revoke_session : Handle → ℕ → M Error Bool
revoke_session db sid = do
  rows ← map_err wrapped (exec db (q_revoke_session sid))
  pure (ltb 0 rows)

unfoldable pub revoke_all_for_user : Handle → ℕ → M Error ℕ
revoke_all_for_user db uid = map_err wrapped (exec db (q_revoke_all_for_user uid))

unfoldable pub touch_session : Handle → ℕ → ℕ → M Error (Unit {0})
touch_session db sid expires = map_err wrapped (exec db (q_touch_session sid expires))

unfoldable pub delete_expired_sessions : Handle → M Error ℕ
delete_expired_sessions db = map_err wrapped (exec db q_delete_expired_sessions)
