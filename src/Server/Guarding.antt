-- ===== src/Server/Guarding.antt =====
-- Who gets through the router of apps/server/cmd/server/main.go: the routes that want a session.
use mathlib.Core.List.{Memᴰ}
use billiards_online.Base.{
  ℕ, suc, ◌+◌, ◌≡◌, refl, ap, ◌∙◌, ◌⊎◌, inl, inr, List, Bool, Option, none, some, [], ◌∷◌, Text,
  ltb, Bool-cases, Result, ok, err,
}
use billiards_online.Security.Crypto.{Crypto}
use billiards_online.Security.Token.{hash_token}
use billiards_online.Config.{Config}
use billiards_online.Auth.Model.{Error, Identity, session_renew_threshold, session_ttl}
use billiards_online.Auth.Http as Auth
use billiards_online.Auth.Middleware.{require_auth, identify}
use billiards_online.Auth.Service.{authenticate, resolve, renew, or_else}
use billiards_online.Auth.Repository.{select_live_session, touch_session}
use billiards_online.Auth.Access.{Opens, authenticate_sound}
use billiards_online.Auth.Kept.{by_token-Steady}
use billiards_online.Rooms.Listing.{Codec}
use billiards_online.Server.Routes.{
  Route, health, ready, api_health, unknown, ws, signup, login, logout, user, session, logout_all,
  me, update_me, create_room, list_rooms, join_by_code, room, join, leave, ready_up, start, match,
  user_matches, required, access_of, auth_reply, handle, carrying, through, serve,
}
use billiards_online.Http.{Result-cases}
use billiards_online.Schema.{Session}
use billiards_online.Postgres.{World, M, pool, ◌>>=◌, ◌>>◌, pure, raise, catch, time_now}
use billiards_online.Postgres.Laws.{>>=-err_cases, query-Keeps}

-- A renewal always gives an expiry: if it fails, the old one.
caught-succeeds :
    {A : Type 0} (m : M Error A) (a : A) (w : World) → (b : A) × ((catch m (or_else a) w).0 ≡ ok b)
unfolding catch pure
caught-succeeds {A} m a w = go (m w).0 (m w).1
  where
    go :
        (r : Result Error A) (w' : World)
        → (b : A) × ((let s : Result Error A × World = elim r [
          | ok x ↦ (ok x, w')
          | err e ↦ (ok a, w')
        ] in
              s.0)
            ≡ ok b)
    go (ok x) w' = (x, refl)
    go (err e) w' = (a, refl)

renew-succeeds : (sid expires_at : ℕ) (w : World) → (a : ℕ) × ((renew sid expires_at w).0 ≡ ok a)
unfolding renew time_now ◌>>=◌
renew-succeeds sid expires_at w =
    elim (Bool-cases (ltb expires_at (w.env.clock w.tick + session_renew_threshold))) [
      | inl near ↦ rw near (
          caught-succeeds
            (touch_session pool sid (w.env.clock (suc w.tick) + session_ttl)
              >> pure (w.env.clock (suc w.tick) + session_ttl))
            expires_at _)
      | inr far ↦ (expires_at, rw far refl)
    ]

select_live_session-tables :
    (hash : List ℕ) (w : World) → (select_live_session pool hash w).1.tables ≡ w.tables
unfolding select_live_session
select_live_session-tables hash w =
    (query-Keeps _ _ pool _ (by_token-Steady (λ t. t ≡ w.tables) hash)).at w refl

-- A request that is not authenticated has changed no table.
authenticate_atomic :
    (c : Crypto) (token : Text) (w : World) (e : Error)
    → (authenticate c token w).0 ≡ err e
    → (authenticate c token w).1.tables ≡ w.tables
unfolding authenticate raise resolve pure
authenticate_atomic c [] w e h = refl
authenticate_atomic c (b ∷ bs) w e h =
    elim (>>=-err_cases (select_live_session pool (hash_token c (b ∷ bs))) _ w e h) [
      | inl (_, same) ↦
          ap (λ (v : World). v.tables) same ∙ select_live_session-tables (hash_token c (b ∷ bs)) w
      | inr (live, _, rest) ↦
          elim (>>=-err_cases (renew live.session.id live.session.expires_at) _ _ e rest) [
            | inl (failed, _) ↦
                absurd (cc (renew-succeeds live.session.id live.session.expires_at _).1)
            | inr (_, _, never) ↦ absurd (cc never)
          ]
    ]

-- The routes that anyone may use.
abbrev pub IsPublic : Route → Type 0
IsPublic health = Unit
IsPublic ready = Unit
IsPublic api_health = Unit
IsPublic unknown = Unit
IsPublic (ws origin accepts) = Unit
IsPublic (signup body) = Unit
IsPublic (login body) = Unit
IsPublic logout = Unit
IsPublic (user id) = Unit
IsPublic _ = ⊥

access_of-required : (route : Route) → ¬ IsPublic route → access_of route ≡ required
unfolding access_of
access_of-required health h = absurd (h tt)
access_of-required ready h = absurd (h tt)
access_of-required api_health h = absurd (h tt)
access_of-required unknown h = absurd (h tt)
access_of-required (ws origin accepts) h = absurd (h tt)
access_of-required (signup body) h = absurd (h tt)
access_of-required (login body) h = absurd (h tt)
access_of-required logout h = absurd (h tt)
access_of-required (user id) h = absurd (h tt)
access_of-required session h = refl
access_of-required logout_all h = refl
access_of-required me h = refl
access_of-required (update_me body) h = refl
access_of-required (create_room body) h = refl
access_of-required (list_rooms cursor limit) h = refl
access_of-required (join_by_code body) h = refl
access_of-required (room id) h = refl
access_of-required (join id) h = refl
access_of-required (leave id) h = refl
access_of-required (ready_up id body) h = refl
access_of-required (start id) h = refl
access_of-required (match id) h = refl
access_of-required (user_matches id cursor limit) h = refl

module _ (c : Crypto) (cfg : Config) (codec : Codec) (sql_lower : Text → Text)
    (allowed : Bool) where
  -- Only health checks, the gateway (which asks for a session of its own), signing up, logging in
  -- and out, and public profiles can be had without a session. Every other route either refuses the
  -- request, which then has changed no table, or the request has the cookie of a session of the
  -- table that is neither revoked nor expired, and the route's handler runs for that session and
  -- its user.
  pub serve-required :
      (route : Route) (cookie : Option Text) (w : World)
      → ¬ IsPublic route
      → (((serve c cfg codec sql_lower allowed route cookie w).0 ≡ auth_reply Auth.unauthorized)
          × ((serve c cfg codec sql_lower allowed route cookie w).1.tables ≡ w.tables))
        ⊎ ((token : Text) × (cookie ≡ some token)
            × (s : Session) × Memᴰ s w.tables.sessions
            × Opens c token (w.env.clock w.tick) s
            × (i : Identity) × (i.session_id ≡ s.id)
            × (i.user_id ≡ s.user_id)
            × (serve c cfg codec sql_lower allowed route cookie w
                ≡ handle c cfg codec sql_lower allowed route cookie
                    (carrying (some i))
                    (authenticate c token w).1))
  unfolding serve through require_auth identify raise
  serve-required route none w h = rw (access_of-required route h) (inl (refl, refl))
  serve-required route (some token) w h = elim (Result-cases (authenticate c token w).0) [
    | inl (i, e) ↦
        let (s, stored, opens, sid, uid) = authenticate_sound c token w i e in
        inr (
          token,
          refl,
          s,
          stored,
          opens,
          i,
          sid,
          uid,
          rw (access_of-required route h) (rw (e, through, require_auth) refl),
        )
    | inr (x, e) ↦ inl (
        rw (access_of-required route h)
          (rw (e, through, require_auth) (refl, authenticate_atomic c token w x e)))
  ]
