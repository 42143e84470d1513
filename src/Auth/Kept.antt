-- ===== src/Auth/Kept.antt =====
-- What every operation of internal/auth/service.go keeps, if its statements do.
use billiards_online.Base.{ℕ, Bool, true, false, List, [], ◌∷◌, Text, ltb, if◌then◌else◌, ◌+◌}
use billiards_online.Users.Model.{User}
use billiards_online.Users.Service as Users
use billiards_online.Users.Repository.{select_user}
use billiards_online.Users.Frame.{one-Outcome}
use billiards_online.Users.Statements.{q_user_by_id}
use billiards_online.Security.Crypto.{Crypto}
use billiards_online.Security.Password.{hash_password, needs_rehash}
use billiards_online.Security.Token.{new_token}
use billiards_online.Auth.Model.{session_ttl, session_renew_threshold}
use billiards_online.Auth.Statements.{
  q_update_credential, q_credential_by_email, q_insert_session, q_live_session_by_token,
  q_revoke_session, q_revoke_all_for_user, q_touch_session, LiveSession,
}
use billiards_online.Auth.Repository.{
  update_credential, select_credential_by_email, insert_session, select_live_session,
  revoke_session, revoke_all_for_user, touch_session,
}
use billiards_online.Auth.Service.{
  issue_session, signup_in_tx, signup, upgrade, rehash, login, renew, resolve, authenticate, logout,
  logout_all,
}
use billiards_online.Schema.{Tables}
use billiards_online.Postgres.{Handle, Times, Statement, M}
use billiards_online.Postgres.Laws.{
  Triple, Keeps, Outcome, >>=-Keeps, map_err-Keeps, exec-Keeps, query-Keeps, in_tx-Keeps,
  catch-Keeps, guard-Keeps, pure-Keeps, raise-Keeps, asks-Keeps, rand_read-Keeps, new_uuid-Keeps,
  time_now-Keeps,
}

abbrev pub Registration : (Tables → Type 0) → Type 0
Registration P =
    (c : Crypto) (lower : Text → Text) (email handle hash : Text) (db : Handle)
    → Triple P (signup_in_tx c lower email handle hash db) (λ _. P)

abbrev pub Steady : (Tables → Type 0) → {A : Type 0} → Statement A → Type 0
Steady P s = (ts : Times) (t : Tables) → P t → Outcome (λ _. P) (s ts t)

-- A fact that the statements which write credentials and sessions keep.
pub record Kept (P : Tables → Type 0) : Type 0 where
  pub register : Registration P
  pub update_credential_kept : (uid : ℕ) (hash : Text) → Steady P (q_update_credential uid hash)
  pub insert_session_kept :
      (id uid : ℕ) (hash : List ℕ) (expires : ℕ) → Steady P (q_insert_session id uid hash expires)
  pub revoke_kept : (sid : ℕ) → Steady P (q_revoke_session sid)
  pub revoke_all_kept : (uid : ℕ) → Steady P (q_revoke_all_for_user uid)
  pub touch_kept : (sid expires : ℕ) → Steady P (q_touch_session sid expires)

if-Keeps :
    {E A : Type 0} {P : Tables → Type 0} (b : Bool) {m n : M E A}
    → Keeps P m
    → Keeps P n
    → Keeps P (if b then m else n)
if-Keeps true hm hn = hm
if-Keeps false hm hn = hn

module _ (P : Tables → Type 0) where
  pub by_email-Steady : (email : Text) → Steady P (q_credential_by_email email)
  unfolding q_credential_by_email
  by_email-Steady email ts t h = one-Outcome P _ t h

  pub by_id-Steady : (uid : ℕ) → Steady P (q_user_by_id uid)
  unfolding q_user_by_id
  by_id-Steady uid ts t h = one-Outcome P _ t h

  pub by_token-Steady : (hash : List ℕ) → Steady P (q_live_session_by_token hash)
  unfolding q_live_session_by_token
  by_token-Steady hash ts t h = one-Outcome P _ t h

module _ {P : Tables → Type 0} (kept : Kept P) (c : Crypto) where
  hash_password-Keeps : (plain : Text) → Keeps P (hash_password c plain)
  unfolding hash_password
  hash_password-Keeps plain =
      >>=-Keeps (guard-Keeps _ _)
        λ _. >>=-Keeps (guard-Keeps _ _) λ _. >>=-Keeps (rand_read-Keeps _ _) λ salt. pure-Keeps _

  issue_session-Keeps : (user : User) → Keeps P (issue_session c user)
  unfolding issue_session insert_session new_token
  issue_session-Keeps user = >>=-Keeps (>>=-Keeps (rand_read-Keeps _ _) λ b. pure-Keeps _) λ token.
      >>=-Keeps (new_uuid-Keeps _) λ id. >>=-Keeps time_now-Keeps λ now.
        >>=-Keeps (map_err-Keeps _ (exec-Keeps _ _ (kept.insert_session_kept id user.id _ _)))
          λ _. pure-Keeps _

  pub signup-Keeps :
      (lower : Text → Text) (email handle password : Text)
      → Keeps P (signup c lower email handle password)
  unfolding signup
  signup-Keeps lower email handle password =
      >>=-Keeps (map_err-Keeps _ (hash_password-Keeps password)) λ hash.
        >>=-Keeps (in_tx-Keeps _ _ _ λ db. kept.register c lower email handle hash db)
          λ user. issue_session-Keeps user

  upgrade-Keeps : (password : Text) (uid : ℕ) → Keeps P (upgrade c password uid)
  unfolding upgrade update_credential
  upgrade-Keeps password uid =
      catch-Keeps
        (>>=-Keeps (map_err-Keeps _ (hash_password-Keeps password))
          λ hash. map_err-Keeps _ (exec-Keeps _ _ (kept.update_credential_kept uid hash)))
        λ e. pure-Keeps tt

  rehash-Keeps : (password stored : Text) (uid : ℕ) → Keeps P (rehash c password stored uid)
  unfolding rehash
  rehash-Keeps password stored uid =
      if-Keeps (needs_rehash c stored) (upgrade-Keeps password uid) (pure-Keeps _)

  pub login-Keeps : (email password : Text) → Keeps P (login c email password)
  unfolding login select_credential_by_email Users.by_id select_user
  login-Keeps email password = >>=-Keeps (asks-Keeps _) λ lower.
      >>=-Keeps (query-Keeps _ _ _ _ (by_email-Steady P _)) λ cred. >>=-Keeps (guard-Keeps _ _) λ _.
        >>=-Keeps (map_err-Keeps _ (query-Keeps _ _ _ _ (by_id-Steady P _))) λ user.
          >>=-Keeps (rehash-Keeps password cred.password_hash user.id) λ _. issue_session-Keeps user

-- An authenticated request writes nothing but the renewal of its session.
module _ {P : Tables → Type 0}
    (touch_kept : (sid expires : ℕ) → Steady P (q_touch_session sid expires)) (c : Crypto) where
  pub renew-Keeps : (sid expires_at : ℕ) → Keeps P (renew sid expires_at)
  unfolding renew touch_session
  renew-Keeps sid expires_at = >>=-Keeps time_now-Keeps λ now.
      if-Keeps (ltb expires_at (now + session_renew_threshold))
        (>>=-Keeps time_now-Keeps λ later.
          catch-Keeps
            (>>=-Keeps (map_err-Keeps _ (exec-Keeps _ _ (touch_kept sid (later + session_ttl))))
              λ _. pure-Keeps _)
            λ e. pure-Keeps _)
        (pure-Keeps expires_at)

  pub authenticate-Keeps : (token : Text) → Keeps P (authenticate c token)
  unfolding authenticate resolve select_live_session
  authenticate-Keeps [] = raise-Keeps _
  authenticate-Keeps (b ∷ bs) =
      >>=-Keeps (query-Keeps _ _ _ _ (by_token-Steady P _)) λ (live : LiveSession).
        >>=-Keeps (renew-Keeps live.session.id live.session.expires_at) λ e. pure-Keeps _

module _ {P : Tables → Type 0} (kept : Kept P) where
  pub logout-Keeps : (sid : ℕ) → Keeps P (logout sid)
  unfolding logout revoke_session
  logout-Keeps sid =
      >>=-Keeps
        (>>=-Keeps (map_err-Keeps _ (exec-Keeps _ _ (kept.revoke_kept sid))) λ rows. pure-Keeps _)
        λ _. pure-Keeps tt

  pub logout_all-Keeps : (uid : ℕ) → Keeps P (logout_all uid)
  unfolding logout_all revoke_all_for_user
  logout_all-Keeps uid = map_err-Keeps _ (exec-Keeps _ _ (kept.revoke_all_kept uid))
