-- ===== src/Auth/Access.antt =====
-- Who gets in: `Authenticate` and `Login` of internal/auth/service.go.
use mathlib.Core.List.{Memᴰ}
use mathlib.Core.Option.{some_inj}
use billiards_online.Base.{
  Bool-cases, inl, inr, ℕ, ◌<◌, ◌≡◌, refl, sym, ap, ◌∙◌, Bool, true, false, Option, none, some,
  List, [], ◌∷◌, Text, text_eq_iff, find, arith, ok,
}
use billiards_online.Users.Model.{User, normalize_email}
use billiards_online.Security.Crypto.{Crypto}
use billiards_online.Security.Password.{verify_password}
use billiards_online.Security.Token.{hash_token}
use billiards_online.Users.Service as Users
use billiards_online.Users.Statements.{q_user_by_id, user_is}
use billiards_online.Users.Repository.{select_user}
use billiards_online.Auth.Issued.{Issued, issue_session-Issued, login-Issued}
use billiards_online.Auth.Model.{Error, invalid_credentials, users_error, Login, Identity}
use billiards_online.Auth.Statements.{
  LiveSession, live_token, token_is, live_at, q_live_session_by_token, q_credential_by_email,
  credential_for, credential_of,
}
use billiards_online.Auth.Repository.{select_live_session, select_credential_by_email}
use billiards_online.Auth.Revocation.{one-some, join_user-session}
use billiards_online.Auth.Service.{
  renew, rehash, issue_session, login, authenticate, resolve, password_ok,
}
use billiards_online.Schema.{Session, Credential}
use billiards_online.Postgres.{
  World, Env, M, now_at, pool, raise, ◌>>=◌, ◌>>◌, asks, guard, map_err, pure,
}
use billiards_online.Postgres.Laws.{>>=-ok, query-ok, map_err-ok, ok-inj, Post-ok}

-- A session that a token opens at a time: it holds the token's hash, is not revoked, and has
-- not expired.
pub record Opens (c : Crypto) (token : Text) (now : ℕ) (s : Session) : Type 0 where
  pub hash : s.token_hash ≡ hash_token c token
  pub kept : s.revoked_at ≡ none
  pub unexpired : now < s.expires_at

module _ (c : Crypto) (token : Text) (now : ℕ) where
  opens : (s : Session) → live_token (hash_token c token) now s ≡ true → Opens c token now s
  unfolding live_token token_is live_at
  opens s h = record {
    hash = sym ((text_eq_iff (hash_token c token) s.token_hash).0 (ground arith));
    kept = ground arith;
    unexpired = ground arith;
  }

find_sound :
    {A : Type 0} (p : A → Bool) (xs : List A) (x : A)
    → find p xs ≡ some x
    → Memᴰ x xs × (p x ≡ true)
unfolding find
find_sound p [] x e = absurd (cc e)
find_sound p (y ∷ ys) x e = elim (Bool-cases (p y)) [
  | inl hit ↦ let same = some_inj.0 (rw hit at e) in (Memᴰ.head (sym same), ap p (sym same) ∙ hit)
  | inr miss ↦ let (m, t) = find_sound p ys x (rw miss at e) in (Memᴰ.tail m, t)
]

select_live_session-ok :
    (c : Crypto) (token : Text) (w : World) (l : LiveSession)
    → (select_live_session pool (hash_token c token) w).0 ≡ ok l
    → Memᴰ l.session w.tables.sessions × Opens c token (w.env.clock w.tick) l.session
unfolding select_live_session q_live_session_by_token now_at
select_live_session-ok c token w l e =
    let (t', ran) = query-ok _ _ pool (q_live_session_by_token (hash_token c token)) w l e in
    let found = join_user-session w.tables.users _ l (one-some _ l w.tables t' ran) in
    let (m, live) = find_sound _ w.tables.sessions l.session found in
    (m, opens c token _ l.session live)

-- Whoever is authenticated holds the token of a session of the table: its hash is the token's,
-- it is not revoked, it has not expired at the time of the request, and the identity is that
-- session's.
pub authenticate_sound :
    (c : Crypto) (token : Text) (w : World) (i : Identity)
    → (authenticate c token w).0 ≡ ok i
    → (s : Session) × Memᴰ s w.tables.sessions
      × Opens c token (w.env.clock w.tick) s
      × (i.session_id ≡ s.id)
      × (i.user_id ≡ s.user_id)
unfolding authenticate resolve raise pure
authenticate_sound c [] w i e = absurd (cc e)
authenticate_sound c (b ∷ bs) w i e =
    let (l, found, rest) = >>=-ok (select_live_session pool (hash_token c (b ∷ bs))) _ w i e in
    let (expires_at, renewed, last) = >>=-ok (renew l.session.id l.session.expires_at) _ _ i rest in
    let (m, o) = select_live_session-ok c (b ∷ bs) w l found in
    (
      l.session,
      m,
      o,
      ap (λ (x : Identity). x.session_id) (sym (ok-inj last)),
      ap (λ (x : Identity). x.user_id) (sym (ok-inj last)),
    )

password_ok-true : (o : Option Bool) → password_ok o ≡ true → o ≡ some true
unfolding password_ok
password_ok-true none h = absurd (cc h)
password_ok-true (some b) h = ap some h

guard-ok : (b : Bool) (e : Error) (w : World) {u : Unit {0}} → (guard b e w).0 ≡ ok u → b ≡ true
unfolding guard
guard-ok true e w h = refl
guard-ok false e w h = absurd (cc h)

credential_for-user :
    (o : Option User) (cs : List Credential) (cred : Credential)
    → credential_for o cs ≡ some cred
    → (u : User) × (o ≡ some u) × (find (credential_of u.id) cs ≡ some cred)
unfolding credential_for
credential_for-user none cs cred e = absurd (cc e)
credential_for-user (some u) cs cred e = (u, refl, e)

asks-ok :
    {A B : Type 0} (f : Env → A) (k : A → M Error B) (w : World) {b : B}
    → ((asks f >>= k) w).0 ≡ ok b
    → (k (f w.env) w).0 ≡ ok b
unfolding asks ◌>>=◌
asks-ok f k w h = h

by_id-id : (uid : ℕ) (w : World) (u : User) → (Users.by_id uid w).0 ≡ ok u → u.id ≡ uid
unfolding Users.by_id select_user q_user_by_id user_is
by_id-id uid w u e =
    let (t', ran) = query-ok _ _ pool (q_user_by_id uid) w u e in
    let (m, same) = find_sound _ w.tables.users u (one-some _ u w.tables t' ran) in
    ground (arith, same)

-- The end of a login, once the password has passed.
finish-user :
    (c : Crypto) (password : Text) (cred : Credential) (w : World) (l : Login)
    → ((map_err users_error (Users.by_id cred.user_id) >>= λ user.
          rehash c password cred.password_hash user.id >> issue_session c user)
        w).0
      ≡ ok l
    → l.user.id ≡ cred.user_id
finish-user c password cred w l e =
    let (user, read, rest) = >>=-ok (map_err users_error (Users.by_id cred.user_id)) _ w l e in
    let (done, upgraded, last) = >>=-ok (rehash c password cred.password_hash user.id) _ _ l rest in
    let (same, _) =
      Post-ok (λ l t. (l.user ≡ user) × Issued c l t) _ _
        ((issue_session-Issued {P = λ _. Unit {0}} c user).at _ tt) last in
    ap (λ (u : User). u.id) same
    ∙ by_id-id cred.user_id w user (map_err-ok users_error (Users.by_id cred.user_id) w user read)

-- Whoever is logged in gave the address of an account, up to spaces around it and letter case, and a
-- password that the hash stored for that account verifies; the login is that account's, and the
-- session that is stored for it is that account's too, holds the hash of the token that is handed
-- out, expires when the login says, and is not revoked.
pub login_sound :
    (c : Crypto) (email password : Text) (w : World) (l : Login)
    → (login c email password w).0 ≡ ok l
    → (u : User) × (cred : Credential) × Memᴰ u w.tables.users
      × (u.email ≡ normalize_email w.env.lower email)
      × Memᴰ cred w.tables.credentials
      × (cred.user_id ≡ u.id)
      × (verify_password c password cred.password_hash ≡ some true)
      × (l.user.id ≡ u.id)
      × Issued c l (login c email password w).1.tables
unfolding login select_credential_by_email q_credential_by_email now_at credential_of
login_sound c email password w l e =
    let (cred, selected, rest) =
      >>=-ok (select_credential_by_email pool (normalize_email w.env.lower email)) _ w l
        (asks-ok _ _ w e) in
    let (t', ran) =
      query-ok _ _ pool (q_credential_by_email (normalize_email w.env.lower email)) w cred
        selected in
    let found = one-some _ cred w.tables t' ran in
    let (u, user, own) = credential_for-user _ w.tables.credentials cred found in
    let (u_in, u_is) = find_sound _ w.tables.users u user in
    let (c_in, c_is) = find_sound _ w.tables.credentials cred own in
    let (checked, passed, last) = >>=-ok (guard _ invalid_credentials) _ _ l rest in
    let owner : cred.user_id ≡ u.id = ground (arith, c_is) in
    (
      u,
      cred,
      u_in,
      sym ((text_eq_iff _ u.email).0 u_is),
      c_in,
      owner,
      password_ok-true _ (guard-ok _ _ _ passed),
      finish-user c password cred _ l last ∙ owner,
      Post-ok (Issued c) _ _ ((login-Issued c email password).at w tt) e,
    )
