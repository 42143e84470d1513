-- ===== src/Auth/Usable.antt =====
-- The session that a token leads to: `issueSession` and `Login` of internal/auth/service.go.
use billiards_online.Base.{
  ℕ, ◌+◌, ◌≡◌, refl, sym, subst, true, some, List, ◌∷◌, Text, text_eq, text_eq_iff, ltb, find,
  arith, ok,
}
use billiards_online.Users.Model.{User}
use billiards_online.Security.Crypto.{Crypto}
use billiards_online.Security.Token.{hash_token}
use billiards_online.Auth.Model.{Login, session_ttl}
use billiards_online.Auth.Statements.{live_token, token_is, live_at, new_session, q_insert_session}
use billiards_online.Auth.Repository.{insert_session}
use billiards_online.Auth.Service.{issue_session, login}
use billiards_online.Schema.{Session, Tables, has_user}
use billiards_online.Postgres.{Times, pool}
use billiards_online.Postgres.Laws.{
  Triple, Outcome, Outcome-ok, >>=-Triple, map_err-Triple, exec-Triple, pure-establishes,
  plain-Triple,
}

-- A token that leads to a session of a user, until its expiry.
abbrev pub Usable : (Text → List ℕ) → Login → Tables → Type 0
Usable hash l t =
    (has_user l.user.id t.users ≡ true)
    × ((now : ℕ)
        → ltb now l.expires_at ≡ true
        → (s : Session) × (find (live_token (hash l.token) now) t.sessions ≡ some s)
          × (s.user_id ≡ l.user.id))

text_eq_refl : (s : Text) → text_eq s s ≡ true
text_eq_refl s = (text_eq_iff s s).1 refl

live_token-new :
    (id uid : ℕ) (hash : List ℕ) (created expires now : ℕ)
    → ltb now expires ≡ true
    → live_token hash now (new_session id uid hash created expires) ≡ true
unfolding live_token token_is live_at
live_token-new id uid hash created expires now h = rw (text_eq_refl hash, h) refl

pub insert_session_ok :
    (id uid : ℕ) (hash : List ℕ) (expires : ℕ) (ts : Times) (t t' : Tables) {u : Unit {0}}
    → q_insert_session id uid hash expires ts t ≡ ok (u, t')
    → (has_user uid t.users ≡ true)
      × (t' ≡ record t { sessions = new_session id uid hash ts.now expires ∷ t.sessions })
unfolding q_insert_session
insert_session_ok id uid hash expires ts t t' e = ground arith

new_session-Usable :
    (hash : Text → List ℕ) (id : ℕ) (user : User) (token : Text) (created expires : ℕ) (t : Tables)
    → has_user user.id t.users ≡ true
    → Usable hash
        (record { user = user; token = token; expires_at = expires })
        (record t { sessions = new_session id user.id (hash token) created expires ∷ t.sessions })
unfolding find
new_session-Usable hash id user token created expires t known = (
  known,
  λ now fresh. (
    new_session id user.id (hash token) created expires,
    rw (live_token-new id user.id (hash token) created expires now fresh) refl,
    refl,
  ),
)

q_insert_session-Usable :
    (c : Crypto) (id : ℕ) (user : User) (token : Text) (expires : ℕ) (ts : Times) (t : Tables)
    → Outcome
        (λ _. Usable (hash_token c) (record { user = user; token = token; expires_at = expires }))
        (q_insert_session id user.id (hash_token c token) expires ts t)
q_insert_session-Usable c id user token expires ts t = Outcome-ok _ _ λ u t' e.
    let (known, after) = insert_session_ok id user.id _ expires ts t t' e in
    subst (Usable (hash_token c) (record { user = user; token = token; expires_at = expires }))
      (sym after) (new_session-Usable (hash_token c) id user token ts.now expires t known)

pub issue_session-Usable :
    {P : Tables → Type 0} (c : Crypto) (user : User)
    → Triple P (issue_session c user) (Usable (hash_token c))
unfolding issue_session insert_session
issue_session-Usable {P} c user =
    >>=-Triple (λ _ _. Unit {0}) (plain-Triple _ λ t h. tt)
      λ token.
        >>=-Triple (λ _ _. Unit {0}) (plain-Triple _ λ t h. h)
          λ id.
            >>=-Triple (λ _ _. Unit {0}) (plain-Triple _ λ t h. h)
              λ now.
                >>=-Triple
                  (λ _.
                    Usable (hash_token c)
                      (record { user = user; token = token; expires_at = now + session_ttl }))
                  (map_err-Triple _
                    (exec-Triple pool _ λ ts t h. q_insert_session-Usable c id user token _ ts t))
                  λ _. pure-establishes _ λ t h. h

pub login-Usable :
    (c : Crypto) (email password : Text)
    → Triple (λ _. Unit {0}) (login c email password) (Usable (hash_token c))
unfolding login
login-Usable c email password =
    >>=-Triple (λ _ _. Unit {0}) (plain-Triple _ λ t h. tt)
      λ lower.
        >>=-Triple (λ _ _. Unit {0}) (plain-Triple _ λ t h. tt)
          λ cred.
            >>=-Triple (λ _ _. Unit {0}) (plain-Triple _ λ t h. tt)
              λ passed.
                >>=-Triple (λ _ _. Unit {0}) (plain-Triple _ λ t h. tt)
                  λ user.
                    >>=-Triple (λ _ _. Unit {0}) (plain-Triple _ λ t h. tt)
                      λ done. issue_session-Usable c user
