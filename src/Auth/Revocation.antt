-- ===== src/Auth/Revocation.antt =====
-- Revoked sessions: `Logout` and `LogoutAll` of internal/auth/service.go beside `Authenticate`.
use billiards_online.Base.{
  ℕ, ◌≡◌, refl, ◌∙◌, Bool, true, false, Option, none, some, List, [], ◌∷◌, arith, ◌==◌, any, update,
  find, ok,
}
use billiards_online.Users.Model.{User}
use billiards_online.Auth.Statements.{
  session_is, live_session_is, live_token, live_at, revoke, q_insert_session, q_revoke_session,
  q_revoke_all_for_user, q_touch_session, q_live_session_by_token, join_user, with_handle,
  LiveSession,
}
use billiards_online.Schema.{Tables, Session}
use billiards_online.Postgres.{Times}
use billiards_online.Postgres.Laws.{Outcome}
use billiards_online.Users.Statements.{one}

-- The session is known, and revoked.
abbrev pub Revoked : ℕ → Tables → Type 0
Revoked sid t =
    (any (session_is sid) t.sessions ≡ true) × (any (live_session_is sid) t.sessions ≡ false)

pub join_user-session :
    (us : List User) (o : Option Session) (l : LiveSession)
    → join_user us o ≡ some l
    → o ≡ some l.session
unfolding join_user with_handle
join_user-session us none l e = ground arith
join_user-session us (some s) l e = ground arith

pub one-some :
    {A : Type 0} (o : Option A) (a : A) (t t' : Tables) → one o t ≡ ok (a, t') → o ≡ some a
one-some none a t t' e = ground arith
one-some (some b) a t t' e = ground arith

module _ (sid : ℕ) where
  -- A change of rows that keeps ids and revives none.
  pub any-update :
      (p : Session → Bool) (f : Session → Session) (ss : List Session)
      → ((s : Session) → (f s).id ≡ s.id)
      → any (session_is sid) (update p f ss) ≡ any (session_is sid) ss
  unfolding any update session_is
  any-update p f [] k = refl
  any-update p f (s ∷ ss) k = ground (arith, any-update p f ss k, k s)

  none-live-update :
      (p : Session → Bool) (f : Session → Session) (ss : List Session)
      → ((s : Session) → live_session_is sid (f s) ≡ true → live_session_is sid s ≡ true)
      → any (live_session_is sid) ss ≡ false
      → any (live_session_is sid) (update p f ss) ≡ false
  unfolding any update
  none-live-update p f [] k h = refl
  none-live-update p f (s ∷ ss) k h = ground (arith, none-live-update p f ss k, k s)

  update-Revoked :
      (p : Session → Bool) (f : Session → Session) (t : Tables)
      → ((s : Session) → (f s).id ≡ s.id)
      → ((s : Session) → live_session_is sid (f s) ≡ true → live_session_is sid s ≡ true)
      → Revoked sid t
      → Revoked sid (record t { sessions = update p f t.sessions })
  update-Revoked p f t ids revives h =
      (any-update p f t.sessions ids ∙ h.0, none-live-update p f t.sessions revives h.1)

  revoke_none :
      (now : ℕ) (s : Session)
      → live_session_is sid (revoke now s) ≡ true
      → live_session_is sid s ≡ true
  unfolding live_session_is
  revoke_none now s h = ground arith

  pub q_revoke_session-Revoked :
      (x : ℕ) (ts : Times) (t : Tables)
      → Revoked sid t
      → Outcome (λ _. Revoked sid) (q_revoke_session x ts t)
  unfolding q_revoke_session
  q_revoke_session-Revoked x ts t h = update-Revoked _ _ t (λ s. refl) (revoke_none ts.now) h

  pub q_revoke_all_for_user-Revoked :
      (uid : ℕ) (ts : Times) (t : Tables)
      → Revoked sid t
      → Outcome (λ _. Revoked sid) (q_revoke_all_for_user uid ts t)
  unfolding q_revoke_all_for_user
  q_revoke_all_for_user-Revoked uid ts t h = update-Revoked _ _ t (λ s. refl) (revoke_none ts.now) h

  pub q_touch_session-Revoked :
      (x expires : ℕ) (ts : Times) (t : Tables)
      → Revoked sid t
      → Outcome (λ _. Revoked sid) (q_touch_session x expires ts t)
  unfolding q_touch_session live_session_is
  q_touch_session-Revoked x expires ts t h = ground (
    arith,
    update-Revoked (session_is x) (λ s. record s { last_seen_at = ts.now; expires_at = expires }) t
        (λ s. refl) (λ s k. k) h,
  )

  -- A new session has another id.
  pub q_insert_session-Revoked :
      (id uid : ℕ) (hash : List ℕ) (expires : ℕ) (ts : Times) (t : Tables)
      → Revoked sid t
      → Outcome (λ _. Revoked sid) (q_insert_session id uid hash expires ts t)
  unfolding q_insert_session any live_session_is session_is
  q_insert_session-Revoked id uid hash expires ts t h = ground arith

  -- A live session is not the one that is revoked.
  find-other :
      (hash : List ℕ) (now : ℕ) (ss : List Session) (s : Session)
      → any (live_session_is sid) ss ≡ false
      → find (live_token hash now) ss ≡ some s
      → (s.id == sid) ≡ false
  unfolding any find live_token live_session_is session_is live_at
  find-other hash now [] s h e = ground arith
  find-other hash now (x ∷ ss) s h e = ground (arith, find-other hash now ss s)

  pub q_live_session_by_token-other :
      (hash : List ℕ) (ts : Times) (t t' : Tables) (l : LiveSession)
      → Revoked sid t
      → q_live_session_by_token hash ts t ≡ ok (l, t')
      → (l.session.id == sid) ≡ false
  unfolding q_live_session_by_token
  q_live_session_by_token-other hash ts t t' l h e =
      find-other hash ts.now t.sessions l.session h.1
        (join_user-session t.users _ l (one-some _ l t t' e))
