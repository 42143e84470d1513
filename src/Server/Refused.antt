-- ===== src/Server/Refused.antt =====
-- What a refused start or leave leaves behind: the routes of internal/rooms behind the router of
-- apps/server/cmd/server/main.go, authentication included.
use billiards_online.Base.{
  ℕ, ◌≡◌, Bool-cases, any, inl, inr, refl, sym, ap, ◌∙◌, subst, Bool, Option, some, Text, [],
}
use billiards_online.Security.Crypto.{Crypto}
use billiards_online.Config.{Config}
use billiards_online.Auth.Model.{Identity}
use billiards_online.Auth.Service.{authenticate}
use billiards_online.Auth.Statements.{q_touch_session, expires_too_soon}
use billiards_online.Auth.Kept.{Steady, authenticate-Keeps}
use billiards_online.Rooms.Listing.{Codec}
use billiards_online.Rooms.Http.Answers.{start-unchanged, leave-unchanged}
use billiards_online.Server.Routes.{
  Route, start, leave, Reply, rooms_reply, sent, handle, carrying, serve, user_id,
}
use billiards_online.Server.Guarding.{IsPublic, serve-required}
use billiards_online.Schema.{Tables}
use billiards_online.Postgres.{World}

-- Every table but that of the sessions, in which a request may renew its own.
abbrev pub SameLobby : Tables → Tables → Type 0
SameLobby before t = record t { sessions = [] } ≡ record before { sessions = [] }

touch-SameLobby :
    (before : Tables) (sid expires : ℕ) → Steady (SameLobby before) (q_touch_session sid expires)
unfolding q_touch_session
touch-SameLobby before sid expires ts t h =
    elim (Bool-cases (any (expires_too_soon sid expires) t.sessions)) [
      | inl early ↦ rw early tt
      | inr late ↦ rw late h
    ]

authenticate-SameLobby :
    (c : Crypto) (token : Text) (w : World) → SameLobby w.tables (authenticate c token w).1.tables
authenticate-SameLobby c token w = (authenticate-Keeps (touch-SameLobby w.tables) c token).at w refl

-- The two requests, and a reply that reports the success of one.
pub data Request : Type 0 where
  starts leaves : Request

abbrev pub route_of : Request → Option ℕ → Route
route_of starts id = start id
route_of leaves id = leave id

abbrev pub success : Request → ℕ
success starts = 201
success leaves = 204

abbrev pub Succeeds : Request → Reply → Type 0
Succeeds q (rooms_reply r) = r.status ≡ success q
Succeeds q _ = ⊥

not-IsPublic : (q : Request) (id : Option ℕ) → ¬ IsPublic (route_of q id)
not-IsPublic starts id h = h
not-IsPublic leaves id h = h

module _ (c : Crypto) (cfg : Config) (codec : Codec) (sql_lower : Text → Text) (allowed : Bool)
    (cookie : Option Text) (id : Option ℕ) where
  abbrev handled : Request → Identity → World → Reply × World
  handled q i w = handle c cfg codec sql_lower allowed (route_of q id) cookie (carrying (some i)) w

  abbrev pub answered_by : Request → World → Reply × World
  answered_by q w = serve c cfg codec sql_lower allowed (route_of q id) cookie w

  handled-unchanged :
      (q : Request) (i : Identity) (w : World)
      → ¬ Succeeds q (handled q i w).0
      → (handled q i w).1.tables ≡ w.tables
  unfolding handle sent user_id
  handled-unchanged starts i w h = start-unchanged (some i.user_id) id w h
  handled-unchanged leaves i w h = leave-unchanged (some i.user_id) id w h

  handled-SameLobby :
      (q : Request) (token : Text) (i : Identity) (w : World) (r : Reply × World)
      → r ≡ handled q i (authenticate c token w).1
      → ¬ Succeeds q r.0
      → SameLobby w.tables r.1.tables
  handled-SameLobby q token i w r runs h =
      let failed = subst (λ (x : Reply × World). ¬ Succeeds q x.0) runs h in
      subst (SameLobby w.tables)
        (sym (
          ap (λ (x : Reply × World). x.1.tables) runs
          ∙ handled-unchanged q i (authenticate c token w).1 failed))
        (authenticate-SameLobby c token w)

  -- A request to start a match that is not answered with 201, or to leave a room that is not
  -- answered with 204, has left every table as it was but that of the sessions, of which
  -- authentication may renew one, whatever failed on the way.
  pub serve-SameLobby :
      (q : Request) (w : World)
      → ¬ Succeeds q (answered_by q w).0
      → SameLobby w.tables (answered_by q w).1.tables
  serve-SameLobby q w h =
      elim (serve-required c cfg codec sql_lower allowed (route_of q id) cookie w
        (not-IsPublic q id)) [
          | inl (_, same) ↦ ap (λ (t : Tables). record t { sessions = [] }) same
          | inr (token, given, s, stored, opens, i, sid, uid, runs) ↦
              handled-SameLobby q token i w _ runs h
        ]
