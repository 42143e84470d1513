-- ===== src/Auth/Issued.antt =====
-- The session that `issueSession` of internal/auth/service.go stores for a login.
use mathlib.Core.List.{Memᴰ}
use billiards_online.Base.{ℕ, ◌+◌, ◌≡◌, refl, subst, sym, none, ◌∷◌, Text}
use billiards_online.Users.Model.{User}
use billiards_online.Security.Crypto.{Crypto}
use billiards_online.Security.Token.{hash_token}
use billiards_online.Auth.Model.{Login, session_ttl}
use billiards_online.Auth.Statements.{new_session}
use billiards_online.Auth.Repository.{insert_session}
use billiards_online.Auth.Service.{issue_session, login}
use billiards_online.Auth.Usable.{insert_session_ok}
use billiards_online.Schema.{Session, Tables}
use billiards_online.Postgres.{pool}
use billiards_online.Postgres.Laws.{
  Triple, Outcome-ok, >>=-Triple, map_err-Triple, exec-Triple, pure-establishes, plain-Triple,
  weaken,
}

-- A session of the table that goes with a login: it is that user's, holds the hash of the token that
-- was handed out, ends when the login says, and is not revoked.
pub record Issued (c : Crypto) (l : Login) (t : Tables) : Type 0 where
  pub stored : Session
  pub kept : Memᴰ stored t.sessions
  pub owner : stored.user_id ≡ l.user.id
  pub hash : stored.token_hash ≡ hash_token c l.token
  pub expiry : stored.expires_at ≡ l.expires_at
  pub live : stored.revoked_at ≡ none

new_session-Issued :
    (c : Crypto) (l : Login) (id created : ℕ) (t : Tables)
    → Issued c l (record t {
      sessions = new_session id l.user.id (hash_token c l.token) created l.expires_at ∷ t.sessions;
    })
new_session-Issued c l id created t = record {
  stored = new_session id l.user.id (hash_token c l.token) created l.expires_at;
  kept = Memᴰ.head refl;
  owner = refl;
  hash = refl;
  expiry = refl;
  live = refl;
}

pub issue_session-Issued :
    {P : Tables → Type 0} (c : Crypto) (user : User)
    → Triple P (issue_session c user) (λ l t. (l.user ≡ user) × Issued c l t)
unfolding issue_session insert_session
issue_session-Issued {P} c user =
    >>=-Triple (λ _ _. Unit {0}) (plain-Triple _ λ t h. tt)
      λ token.
        >>=-Triple (λ _ _. Unit {0}) (plain-Triple _ λ t h. h)
          λ id.
            >>=-Triple (λ _ _. Unit {0}) (plain-Triple _ λ t h. h)
              λ now.
                let l : Login = record {
                  user = user;
                  token = token;
                  expires_at = now + session_ttl;
                } in
                >>=-Triple (λ _ t. Issued c l t)
                  (map_err-Triple _ (
                    exec-Triple pool _ λ ts t h.
                      Outcome-ok (λ _ t. Issued c l t) _
                        λ u t' e.
                          let (known, after) = insert_session_ok id user.id _ _ ts t t' e in
                          subst (Issued c l) (sym after) (new_session-Issued c l id ts.now t)))
                  λ _. pure-establishes _ λ t h. (refl, h)

pub login-Issued :
    (c : Crypto) (email password : Text)
    → Triple (λ _. Unit {0}) (login c email password) (Issued c)
unfolding login
login-Issued c email password =
    >>=-Triple (λ _ _. Unit {0}) (plain-Triple _ λ t h. tt)
      λ lower.
        >>=-Triple (λ _ _. Unit {0}) (plain-Triple _ λ t h. tt)
          λ cred.
            >>=-Triple (λ _ _. Unit {0}) (plain-Triple _ λ t h. tt)
              λ passed.
                >>=-Triple (λ _ _. Unit {0}) (plain-Triple _ λ t h. tt)
                  λ user.
                    >>=-Triple (λ _ _. Unit {0}) (plain-Triple _ λ t h. tt)
                      λ done. weaken (λ l t h. h.1) (issue_session-Issued c user)
