-- ===== src/Auth/Run.antt =====
-- Any sequence of calls of internal/auth.Service, beside the middleware's `Authenticate`.
use billiards_online.Base.{
  ℕ, ◌≡◌, refl, true, false, ◌∙◌, List, [], ◌∷◌, Text, ◌==◌, any, update, arith, ok,
}
use billiards_online.Users.Frame.{create-P}
use billiards_online.Security.Crypto.{Crypto}
use billiards_online.Auth.Model.{Identity, Error}
use billiards_online.Auth.Statements.{
  session_is, live_session_is, revoke, q_insert_credential, q_update_credential, q_revoke_session,
  LiveSession,
}
use billiards_online.Auth.Repository.{insert_credential, revoke_session, select_live_session}
use billiards_online.Auth.Service as Service
use billiards_online.Auth.Service.{signup_in_tx, resolve}
use billiards_online.Auth.Revocation.{
  Revoked, any-update, q_revoke_session-Revoked, q_revoke_all_for_user-Revoked,
  q_touch_session-Revoked, q_insert_session-Revoked, q_live_session_by_token-other,
}
use billiards_online.Auth.Kept.{
  Kept, Registration, signup-Keeps, login-Keeps, authenticate-Keeps, logout-Keeps, logout_all-Keeps,
}
use billiards_online.Schema.{Tables, Session}
use billiards_online.Postgres.{World, Times}
use billiards_online.Postgres.Laws.{
  Triple, Outcome, Outcome-ok, >>=-Triple, map_err-Triple, exec-Triple, query-Triple, pure-Triple,
  Keeps-Triple, raise-Triple, plain-Triple, pure-establishes, Post-ok,
}

pub data Call : Type 0 where
  signup : Text → Text → Text → Call
  login : Text → Text → Call
  authenticate : Text → Call
  logout logout_all : ℕ → Call

-- `sql_lower` is the database's lower().
module _ (c : Crypto) (sql_lower : Text → Text) where
  unfoldable pub step : World → Call → World
  step w (signup email handle password) = (Service.signup c sql_lower email handle password w).1
  step w (login email password) = (Service.login c email password w).1
  step w (authenticate token) = (Service.authenticate c token w).1
  step w (logout sid) = (Service.logout sid w).1
  step w (logout_all uid) = (Service.logout_all uid w).1

  unfoldable pub run : World → List Call → World
  unfolding step
  run w [] = w
  run w (k ∷ ks) = run (step w k) ks

  step-Kept :
      {P : Tables → Type 0} → Kept P → (w : World) (k : Call) → P w.tables → P (step w k).tables
  unfolding step
  step-Kept kept w (signup email handle password) h =
      (signup-Keeps kept c sql_lower email handle password).at w h
  step-Kept kept w (login email password) h = (login-Keeps kept c email password).at w h
  step-Kept kept w (authenticate token) h = (authenticate-Keeps kept.touch_kept c token).at w h
  step-Kept kept w (logout sid) h = (logout-Keeps kept sid).at w h
  step-Kept kept w (logout_all uid) h = (logout_all-Keeps kept uid).at w h

  pub run-Kept :
      {P : Tables → Type 0}
      → Kept P
      → (w : World) (ks : List Call) → P w.tables
      → P (run w ks).tables
  unfolding run
  run-Kept kept w [] h = h
  run-Kept kept w (k ∷ ks) h = run-Kept kept (step w k) ks (step-Kept kept w k h)

q_insert_credential-Revoked :
    (sid uid : ℕ) (hash : Text) (ts : Times) (t : Tables)
    → Revoked sid t
    → Outcome (λ _. Revoked sid) (q_insert_credential uid hash ts t)
unfolding q_insert_credential
q_insert_credential-Revoked sid uid hash ts t h = ground arith

q_update_credential-Revoked :
    (sid uid : ℕ) (hash : Text) (ts : Times) (t : Tables)
    → Revoked sid t
    → Outcome (λ _. Revoked sid) (q_update_credential uid hash ts t)
unfolding q_update_credential
q_update_credential-Revoked sid uid hash ts t h = ground arith

signup_in_tx-Revoked : (sid : ℕ) → Registration (Revoked sid)
unfolding signup_in_tx insert_credential
signup_in_tx-Revoked sid c lower email handle hash db =
    >>=-Triple (λ _. Revoked sid)
      (map_err-Triple _
        (Keeps-Triple (create-P {P = Revoked sid} (λ t us ps h. h) lower db email handle)))
      λ user.
        >>=-Triple (λ _. Revoked sid)
          (map_err-Triple _ (exec-Triple db _ (q_insert_credential-Revoked sid user.id hash)))
          λ _. pure-Triple user

Revoked-Kept : (sid : ℕ) → Kept (Revoked sid)
Revoked-Kept sid = record {
  register = signup_in_tx-Revoked sid;
  update_credential_kept = q_update_credential-Revoked sid;
  insert_session_kept = q_insert_session-Revoked sid;
  revoke_kept = q_revoke_session-Revoked sid;
  revoke_all_kept = q_revoke_all_for_user-Revoked sid;
  touch_kept = q_touch_session-Revoked sid;
}

none_live :
    (sid now : ℕ) (ss : List Session)
    → any (live_session_is sid) (update (live_session_is sid) (revoke now) ss) ≡ false
unfolding any update live_session_is
none_live sid now [] = refl
none_live sid now (s ∷ ss) = ground (arith, none_live sid now ss)

logout-Revoked :
    (sid : ℕ)
    → Triple {E = Error}
        (λ t. any (session_is sid) t.sessions ≡ true)
        (Service.logout sid)
        (λ _. Revoked sid)
unfolding Service.logout revoke_session q_revoke_session
logout-Revoked sid =
    >>=-Triple (λ _. Revoked sid)
      (>>=-Triple (λ _. Revoked sid)
        (map_err-Triple _ (
          exec-Triple _ _ λ ts t h.
            (any-update sid _ _ t.sessions (λ s. refl) ∙ h, none_live sid ts.now t.sessions)))
        λ rows. pure-Triple _)
      λ _. pure-Triple _

authenticate-other :
    (c : Crypto) (sid : ℕ) (token : Text)
    → Triple
        (Revoked sid)
        (Service.authenticate c token)
        (λ (i : Identity) _. (i.session_id == sid) ≡ false)
unfolding Service.authenticate resolve select_live_session
authenticate-other c sid [] = raise-Triple _
authenticate-other c sid (b ∷ bs) =
    >>=-Triple (λ (l : LiveSession) _. (l.session.id == sid) ≡ false)
      (query-Triple _ _ _ _
        λ ts t h. Outcome-ok _ _ λ l t' e. q_live_session_by_token-other sid _ ts t t' l h e)
      λ l.
        >>=-Triple (λ _ _. (l.session.id == sid) ≡ false) (plain-Triple _ λ t h. h)
          λ x. pure-establishes _ λ t h. h

-- A logout that reports success is final: if the session exists, then after it and after any
-- calls whatever (no row being purged), whatever fails on the way, no token at all is
-- authenticated as that session.
pub logout-final :
    (c : Crypto) (sql_lower : Text → Text) (sid : ℕ) (w : World) (calls : List Call) (token : Text)
    (i : Identity)
    → any (session_is sid) w.tables.sessions ≡ true
    → (Service.logout sid w).0 ≡ ok tt
    → (Service.authenticate c token (run c sql_lower (Service.logout sid w).1 calls)).0 ≡ ok i
    → (i.session_id == sid) ≡ false
logout-final c sql_lower sid w calls token i known done live =
    let after =
      run-Kept c sql_lower (Revoked-Kept sid) _ calls
        (Post-ok (λ _. Revoked sid) _ _ ((logout-Revoked sid).at w known) done) in
    Post-ok (λ (i : Identity) _. (i.session_id == sid) ≡ false) _ _
      ((authenticate-other c sid token).at (run c sql_lower (Service.logout sid w).1 calls) after)
      live
