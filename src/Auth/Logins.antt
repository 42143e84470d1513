-- ===== src/Auth/Logins.antt =====
-- Accounts and their passwords: `Signup` of internal/auth/service.go.
use billiards_online.Base.{ℕ, ◌≡◌, refl, ◌∙◌, ◌||◌, List, [], ◌∷◌, Text, ◌==◌, any, update, arith}
use billiards_online.Users.Model.{User}
use billiards_online.Users.Statements.{q_insert_user, q_insert_profile}
use billiards_online.Users.Repository.{insert_user, insert_profile}
use billiards_online.Users.Service.{create, create_in_tx}
use billiards_online.Auth.Statements.{
  has_credential, credential_of, q_insert_credential, q_update_credential, q_insert_session,
  q_revoke_session, q_revoke_all_for_user, q_touch_session,
}
use billiards_online.Auth.Repository.{insert_credential}
use billiards_online.Auth.Service.{signup_in_tx}
use billiards_online.Auth.Kept.{Kept, Registration, Steady}
use billiards_online.Auth.Run.{Call, run, run-Kept}
use billiards_online.Security.Crypto.{Crypto}
use billiards_online.Schema.{Tables, Credential, has_user}
use billiards_online.Postgres.{World, Handle, Times}
use billiards_online.Postgres.Laws.{
  Triple, Outcome, >>=-Triple, query-Triple, exec-Triple, map_err-Triple, in_tx-Triple,
  pure-establishes, Keeps-Triple, lift-Keeps, asks-Keeps, new_uuid-Keeps,
}

-- An account and its password come and go together.
abbrev pub Logins : Tables → Type 0
Logins t = (uid : ℕ) → has_credential uid t.credentials ≡ has_user uid t.users

-- The same while one user has none yet.
abbrev Pending : User → Tables → Type 0
Pending u t = (uid : ℕ) → ((u.id == uid) || has_credential uid t.credentials) ≡ has_user uid t.users

q_insert_user-Pending :
    (lower : Text → Text) (id : ℕ) (email handle : Text) (ts : Times) (t : Tables)
    → Logins t
    → Outcome Pending (q_insert_user lower id email handle ts t)
unfolding q_insert_user has_user any
q_insert_user-Pending lower id email handle ts t h = ground arith

q_insert_profile-Pending :
    (u : User) (uid : ℕ) (ts : Times) (t : Tables)
    → Pending u t
    → Outcome (λ _. Pending u) (q_insert_profile uid ts t)
unfolding q_insert_profile
q_insert_profile-Pending u uid ts t h = ground arith

q_insert_credential-Logins :
    (u : User) (hash : Text) (ts : Times) (t : Tables)
    → Pending u t
    → Outcome (λ _. Logins) (q_insert_credential u.id hash ts t)
unfolding q_insert_credential has_credential credential_of any
q_insert_credential-Logins u hash ts t h = ground arith

-- A new account, before it is given its password.
create_in_tx-Pending :
    (lower : Text → Text) (id : ℕ) (email handle : Text) (db : Handle)
    → Triple Logins (create_in_tx lower id email handle db) Pending
unfolding create_in_tx insert_user insert_profile
create_in_tx-Pending lower id email handle db =
    >>=-Triple Pending (query-Triple _ _ db _ (q_insert_user-Pending lower id email handle))
      λ (u : User).
        >>=-Triple (λ _. Pending u)
          (map_err-Triple _ (exec-Triple db _ (q_insert_profile-Pending u u.id)))
          λ _. pure-establishes u λ t h. h

create-Pending :
    (lower : Text → Text) (db : Handle) (raw handle : Text)
    → Triple Logins (create lower db raw handle) Pending
unfolding create
create-Pending lower db raw handle =
    >>=-Triple (λ _. Logins) (Keeps-Triple (asks-Keeps _))
      λ f.
        >>=-Triple (λ _. Logins) (Keeps-Triple (lift-Keeps _))
          λ _.
            >>=-Triple (λ _. Logins) (Keeps-Triple (lift-Keeps _))
              λ _.
                >>=-Triple (λ _. Logins) (Keeps-Triple (new_uuid-Keeps _))
                  λ id. in_tx-Triple _ _ _ λ tx. create_in_tx-Pending lower id _ handle tx

signup_in_tx-Logins : Registration Logins
unfolding signup_in_tx insert_credential
signup_in_tx-Logins c lower email handle hash db =
    >>=-Triple Pending (map_err-Triple _ (create-Pending lower db email handle)) λ (u : User).
      >>=-Triple (λ _. Logins)
        (map_err-Triple _ (exec-Triple db _ (q_insert_credential-Logins u hash)))
        λ _. pure-establishes u λ t h. h

any-update-credential :
    (uid x : ℕ) (hash : Text) (cs : List Credential)
    → has_credential uid (update (credential_of x) (λ c. record c { password_hash = hash }) cs)
      ≡ has_credential uid cs
unfolding has_credential any update credential_of
any-update-credential uid x hash [] = refl
any-update-credential uid x hash (c ∷ cs) = ground (arith, any-update-credential uid x hash cs)

q_update_credential-Logins : (x : ℕ) (hash : Text) → Steady Logins (q_update_credential x hash)
unfolding q_update_credential
q_update_credential-Logins x hash ts t h =
    ground (arith, λ (uid : ℕ). any-update-credential uid x hash t.credentials ∙ h uid)

Logins-Kept : Kept Logins
unfolding q_insert_session q_revoke_session q_revoke_all_for_user q_touch_session
Logins-Kept = record {
  register = signup_in_tx-Logins;
  update_credential_kept = q_update_credential-Logins;
  insert_session_kept = λ id uid hash expires ts t h. ground arith;
  revoke_kept = λ sid ts t h. h;
  revoke_all_kept = λ uid ts t h. h;
  touch_kept = λ sid expires ts t h. ground arith;
}

-- No history of signups, logins, authenticated requests and logouts, whatever fails on the way,
-- leaves an account that has no password or a password that has no account.
pub run-Logins :
    (c : Crypto) (sql_lower : Text → Text) (w : World) (calls : List Call)
    → Logins w.tables
    → Logins (run c sql_lower w calls).tables
run-Logins c sql_lower w calls h = run-Kept c sql_lower Logins-Kept w calls h
