-- ===== src/Auth/Admission.antt =====
-- A token that was handed out gets in: `issueSession` and `Authenticate` of
-- internal/auth/service.go.
use billiards_online.Base.{
  ℕ, ◌+◌, ◌≡◌, ◌≢◌, refl, ap, ◌∙◌, Bool, true, false, Bool-cases, inl, inr, some, List, [], ◌∷◌,
  Text, ltb, ◌==◌, if◌then◌else◌, find, any, ok, Result, err,
}
use billiards_online.Users.Model.{User}
use billiards_online.Users.Statements.{one, user_is}
use billiards_online.Security.Crypto.{Crypto}
use billiards_online.Security.Token.{hash_token}
use billiards_online.Auth.Model.{Error, Login, Identity, session_renew_threshold}
use billiards_online.Auth.Statements.{
  LiveSession, live_token, join_user, with_handle, q_live_session_by_token,
}
use billiards_online.Auth.Repository.{select_live_session}
use billiards_online.Auth.Service.{or_else, authenticate, resolve, renew, login}
use billiards_online.Schema.{Session, has_user}
use billiards_online.Postgres.{World, M, ◌>>=◌, now_at, time_now, catch, pure, pool}
use billiards_online.Postgres.Laws.{>>=-runs, query-runs, Post-ok}
use billiards_online.Auth.Usable.{Usable, login-Usable}

-- A step that cannot fail.
abbrev Total : {A : Type 0} → M Error A → Type 0
Total {A} m = (w : World) → (a : A) × ((m w).0 ≡ ok a)

or_else-Total : {A : Type 0} (m : M Error A) (a : A) → Total (catch m (or_else a))
unfolding catch pure
or_else-Total {A} m a w = go (m w).0 (m w).1
  where
    go :
        (r : Result Error A) (w' : World)
        → (b : A) × ((catch (λ _. (r, w')) (or_else a) w').0 ≡ ok b)
    go (ok b) w' = (b, refl)
    go (err e) w' = (a, refl)

>>=-Total :
    {A B : Type 0} (m : M Error A) (f : A → M Error B)
    → Total m
    → ((a : A) → Total (f a))
    → Total (m >>= f)
>>=-Total m f hm hf w =
    let (a, e) = hm w in let (b, e') = hf a (m w).1 in (b, >>=-runs m f w a e ∙ e')

if-Total :
    {A : Type 0} (b : Bool) (m n : M Error A) → Total m → Total n → Total (if b then m else n)
if-Total true m n hm hn = hm
if-Total false m n hm hn = hn

pure-Total : {A : Type 0} (a : A) → Total (pure a)
unfolding pure
pure-Total a w = (a, refl)

time_now-Total : Total time_now
unfolding time_now
time_now-Total w = (w.env.clock w.tick, refl)

-- A renewal never stands in the way.
renew-Total : (sid expires_at : ℕ) → Total (renew sid expires_at)
unfolding renew
renew-Total sid expires_at = >>=-Total time_now _ time_now-Total λ now.
    if-Total (ltb expires_at (now + session_renew_threshold)) _ _
      (>>=-Total time_now _ time_now-Total λ later. or_else-Total _ expires_at)
      (pure-Total expires_at)

find-user :
    (uid : ℕ) (us : List User)
    → has_user uid us ≡ true
    → (u : User) × (find (user_is uid) us ≡ some u)
unfolding has_user any find user_is
find-user uid [] h = absurd (cc h)
find-user uid (u ∷ us) h = elim (Bool-cases (u.id == uid)) [
  | inl same ↦ (u, rw same refl)
  | inr other ↦ let (v, e) = find-user uid us (rw other at h) in (v, rw other e)
]

joined :
    (us : List User) (s : Session)
    → has_user s.user_id us ≡ true
    → (l : LiveSession) × (join_user us (some s) ≡ some l) × (l.session ≡ s)
unfolding join_user with_handle
joined us s h =
    let (u, e) = find-user s.user_id us h in
    (record { session = s; handle = u.handle }, rw e refl, refl)

select_live_session-runs :
    (hash : List ℕ) (s : Session) (w : World)
    → has_user s.user_id w.tables.users ≡ true
    → find (live_token hash (w.env.clock w.tick)) w.tables.sessions ≡ some s
    → w.env.fails w.tick ≡ false
    → (l : LiveSession) × ((select_live_session pool hash w).0 ≡ ok l) × (l.session ≡ s)
unfolding select_live_session q_live_session_by_token now_at
select_live_session-runs hash s w known found up =
    let (l, e, same) = joined w.tables.users s known in
    (
      l,
      query-runs _ _ pool (q_live_session_by_token hash) w l w.tables up
          (ap (λ o. one (join_user w.tables.users o) w.tables) found ∙ ap (λ o. one o w.tables) e),
      same,
    )

resolve-runs :
    (c : Crypto) (token : Text) (s : Session) (w : World)
    → has_user s.user_id w.tables.users ≡ true
    → find (live_token (hash_token c token) (w.env.clock w.tick)) w.tables.sessions ≡ some s
    → w.env.fails w.tick ≡ false
    → (i : Identity) × ((resolve c token w).0 ≡ ok i) × (i.user_id ≡ s.user_id)
unfolding resolve pure
resolve-runs c token s w known found up =
    let (l, selected, same) = select_live_session-runs (hash_token c token) s w known found up in
    let (e, renewed) =
      renew-Total l.session.id l.session.expires_at
        (select_live_session pool (hash_token c token) w).1 in
    (
      _,
      >>=-runs (select_live_session pool (hash_token c token)) _ w l selected
          ∙ >>=-runs (renew l.session.id l.session.expires_at) _ _ e renewed,
      ap (λ (x : Session). x.user_id) same,
    )

authenticate-resolve :
    (c : Crypto) (token : Text) → token ≢ [] → authenticate c token ≡ resolve c token
unfolding authenticate
authenticate-resolve c [] h = absurd (h refl)
authenticate-resolve c (b ∷ bs) h = refl

authenticate-Usable :
    (c : Crypto) (l : Login) (w : World)
    → Usable (hash_token c) l w.tables
    → l.token ≢ []
    → w.env.fails w.tick ≡ false
    → ltb (w.env.clock w.tick) l.expires_at ≡ true
    → (i : Identity) × ((authenticate c l.token w).0 ≡ ok i) × (i.user_id ≡ l.user.id)
authenticate-Usable c l w (known, live) some_token up fresh =
    let (s, found, own) = live (w.env.clock w.tick) fresh in
    let (i, e, same) =
      resolve-runs c l.token s w (ap (λ u. has_user u w.tables.users) own ∙ known) found up in
    (
      i,
      ap (λ (m : M Error Identity). (m w).0) (authenticate-resolve c l.token some_token) ∙ e,
      same ∙ own,
    )

-- Whoever has just logged in gets in: the token that `Login` hands out, if it is not empty, is
-- authenticated as the user who logged in, as long as it has not expired and the database answers.
pub login-authenticate :
    (c : Crypto) (email password : Text) (w : World) (l : Login)
    → (login c email password w).0 ≡ ok l
    → l.token ≢ []
    → let after = (login c email password w).1 in
      after.env.fails after.tick ≡ false
      → ltb (after.env.clock after.tick) l.expires_at ≡ true
      → (i : Identity) × ((authenticate c l.token after).0 ≡ ok i) × (i.user_id ≡ l.user.id)
login-authenticate c email password w l e some_token up fresh =
    authenticate-Usable c l _
      (Post-ok (λ l. Usable (hash_token c) l) _ _ ((login-Usable c email password).at w tt) e)
      some_token up fresh
