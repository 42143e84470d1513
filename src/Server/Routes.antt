-- ===== src/Server/Routes.antt =====
-- The public router: newRouter of apps/server/cmd/server/main.go, with RegisterRoutes of the
-- packages auth, users, rooms and matches and the bridge between the identities of auth and users.
-- gin's part is given: which route a request belongs to, with its parameters, cookie and body as
-- parsed. So are the verdict of the rate limiter and what the socket's upgrade says.
use billiards_online.Base.{ℕ, Bool, Option, none, some, Text, ◌++◌, codes, Result, ok, err}
use billiards_online.Security.Crypto.{Crypto}
use billiards_online.Config.{Config, is_production}
use billiards_online.Users.Model.{UpdateProfileInput}
use billiards_online.Users.Http as Users
use billiards_online.Auth.Model.{Identity}
use billiards_online.Auth.Http as Auth
use billiards_online.Auth.Middleware.{require_auth, optional_auth}
use billiards_online.Rooms.Model.{CreateInput}
use billiards_online.Rooms.Listing.{Codec}
use billiards_online.Rooms.Http as Rooms
use billiards_online.Matches.Http as Matches
use billiards_online.Realtime.Gateway as Gateway
use billiards_online.Postgres.{World, exec, pool}
use billiards_online.Schema.{PgError}

-- A registered route, with what gin has parsed of a request to it; `unknown` is NoRoute.
pub data Route : Type 0 where
  health ready api_health unknown : Route
  ws : Text → Bool → Route
  signup : Option Auth.SignupRequest → Route
  login : Option Auth.LoginRequest → Route
  logout session logout_all me : Route
  update_me : Option UpdateProfileInput → Route
  user : Option ℕ → Route
  create_room : Option CreateInput → Route
  list_rooms : Text → Text → Route
  join_by_code : Option Text → Route
  room join leave start : Option ℕ → Route
  ready_up : Option ℕ → Option Bool → Route
  match : Option ℕ → Route
  user_matches : Option ℕ → Text → Text → Route

pub data Method : Type 0 where
  get post patch : Method

-- Where a route is registered: the method and the pattern.
abbrev api : Text → Text
api path = codes "/api/v1" ++ path

unfoldable pub pattern_of : Route → Option (Method × Text)
pattern_of health = some (get, codes "/health")
pattern_of ready = some (get, codes "/ready")
pattern_of api_health = some (get, api (codes "/health"))
pattern_of unknown = none
pattern_of (ws origin accepts) = some (get, codes "/ws")
pattern_of (signup body) = some (post, api (codes "/auth/signup"))
pattern_of (login body) = some (post, api (codes "/auth/login"))
pattern_of logout = some (post, api (codes "/auth/logout"))
pattern_of session = some (get, api (codes "/auth/session"))
pattern_of logout_all = some (post, api (codes "/auth/logout-all"))
pattern_of me = some (get, api (codes "/users/me"))
pattern_of (update_me body) = some (patch, api (codes "/users/me"))
pattern_of (user id) = some (get, api (codes "/users/:id"))
pattern_of (create_room body) = some (post, api (codes "/rooms"))
pattern_of (list_rooms cursor limit) = some (get, api (codes "/rooms"))
pattern_of (join_by_code body) = some (post, api (codes "/rooms/join-by-code"))
pattern_of (room id) = some (get, api (codes "/rooms/:id"))
pattern_of (join id) = some (post, api (codes "/rooms/:id/join"))
pattern_of (leave id) = some (post, api (codes "/rooms/:id/leave"))
pattern_of (ready_up id body) = some (post, api (codes "/rooms/:id/ready"))
pattern_of (start id) = some (post, api (codes "/rooms/:id/start"))
pattern_of (match id) = some (get, api (codes "/matches/:id"))
pattern_of (user_matches id cursor limit) = some (get, api (codes "/users/:id/matches"))

-- The chain that a route was registered with: RequireAuth, OptionalAuth, or neither.
pub data Access : Type 0 where
  open_to_all optional required : Access

-- Each package's RegisterRoutes; `none` is a route of another.
unfoldable pub auth_access : Route → Option Access
auth_access (signup body) = some open_to_all
auth_access (login body) = some open_to_all
auth_access logout = some optional
auth_access session = some required
auth_access logout_all = some required
auth_access other = none

unfoldable pub users_access : Route → Option Access
users_access me = some required
users_access (update_me body) = some required
users_access (user id) = some open_to_all
users_access other = none

unfoldable pub rooms_access : Route → Option Access
rooms_access (create_room body) = some required
rooms_access (list_rooms cursor limit) = some required
rooms_access (join_by_code body) = some required
rooms_access (room id) = some required
rooms_access (join id) = some required
rooms_access (leave id) = some required
rooms_access (ready_up id body) = some required
rooms_access (start id) = some required
rooms_access other = none

unfoldable pub matches_access : Route → Option Access
matches_access (match id) = some required
matches_access (user_matches id cursor limit) = some required
matches_access other = none

-- newRouter's own routes have no chain.
unfoldable pub first_of : Option Access → Option Access → Option Access
first_of none o = o
first_of (some a) o = some a

unfoldable pub access_or_open : Option Access → Access
access_or_open none = open_to_all
access_or_open (some a) = a

unfoldable pub access_of : Route → Access
unfolding first_of access_or_open auth_access users_access rooms_access matches_access
access_of r = access_or_open (
    first_of (auth_access r)
      (first_of (users_access r) (first_of (rooms_access r) (matches_access r))))

pub data Reply : Type 0 where
  plain : ℕ → Reply
  auth_reply : Auth.Reply → Reply
  users_reply : Users.Reply → Reply
  rooms_reply : Rooms.Reply → Reply
  matches_reply : Matches.Reply → Reply
  socket : Gateway.Admission → Reply

-- Send an answer of a package's handlers as it is.
unfoldable pub sent : {R : Type 0} → (R → Reply) → R × World → Reply × World
sent wrap (r, w) = (wrap r, w)

-- `/ready`: 503 if the database cannot be pinged.
unfoldable pub readiness : Result PgError (Unit {0}) → Reply
readiness (ok _) = plain 200
readiness (err e) = plain 503

-- Ping, a statement without an effect
unfoldable pub ping : World → Result PgError (Unit {0}) × World
ping = exec pool (λ ts t. ok (tt, t))

-- `IdentityFrom`, `MustUserID`
unfoldable pub user_id : Option Identity → Option ℕ
user_id none = none
user_id (some id) = some id.user_id

-- The context values of auth and of users; `bridgeIdentityToUsers` copies one to the other.
pub record Carried : Type 0 where
  pub identity : Option Identity
  pub user : Option ℕ

abbrev pub carrying : Option Identity → Carried
carrying identity = record { identity = identity; user = none }

unfoldable pub bridge : Carried → Carried
bridge c = elim c.identity [ none ↦ c | some id ↦ record c { user = some id.user_id } ]

module _ (c : Crypto) (cfg : Config) (codec : Codec) (sql_lower : Text → Text)
    (allowed : Bool) where
  -- What a route's last handler does with the identity that the chain has attached.
  unfoldable pub handle : Route → Option Text → Carried → World → Reply × World
  unfolding sent readiness ping user_id bridge
  handle health cookie x w = (plain 200, w)
  handle ready cookie x w = sent readiness (ping w)
  handle api_health cookie x w = (plain 200, w)
  handle unknown cookie x w = (plain 404, w)
  handle (ws origin accepts) cookie x w =
      sent socket (Gateway.serve_ws c cfg origin cookie accepts w)
  handle (signup body) cookie x w =
      sent auth_reply (Auth.signup c (is_production cfg.env) sql_lower allowed body w)
  handle (login body) cookie x w =
      sent auth_reply (Auth.login c (is_production cfg.env) allowed body w)
  handle logout cookie x w = sent auth_reply (Auth.logout c (is_production cfg.env) x.identity w)
  handle session cookie x w = sent auth_reply (Auth.session x.identity w)
  handle logout_all cookie x w =
      sent auth_reply (Auth.logout_all c (is_production cfg.env) x.identity w)
  handle me cookie x w = sent users_reply (Users.me (bridge x).user w)
  handle (update_me body) cookie x w = sent users_reply (Users.update_me (bridge x).user body w)
  handle (user id) cookie x w = sent users_reply (Users.by_id id w)
  handle (create_room body) cookie x w =
      sent rooms_reply (Rooms.create allowed (user_id x.identity) body w)
  handle (list_rooms cursor limit) cookie x w = sent rooms_reply (Rooms.list codec cursor limit w)
  handle (join_by_code body) cookie x w =
      sent rooms_reply (Rooms.join_by_code (user_id x.identity) body w)
  handle (room id) cookie x w = sent rooms_reply (Rooms.get (user_id x.identity) id w)
  handle (join id) cookie x w = sent rooms_reply (Rooms.join (user_id x.identity) id w)
  handle (leave id) cookie x w = sent rooms_reply (Rooms.leave (user_id x.identity) id w)
  handle (ready_up id body) cookie x w =
      sent rooms_reply (Rooms.ready (user_id x.identity) id body w)
  handle (start id) cookie x w = sent rooms_reply (Rooms.start (user_id x.identity) id w)
  handle (match id) cookie x w = sent matches_reply (Matches.get id w)
  handle (user_matches id cursor limit) cookie x w =
      sent matches_reply (Matches.list_for_user_route codec id cursor limit w)

  -- A request runs through the chain of its route.
  unfoldable pub through :
      Access → Option Text → (Option Identity → World → Reply × World) → World → Reply × World
  through open_to_all cookie next w = next none w
  through optional cookie next w = optional_auth c cookie next w
  through required cookie next w = require_auth c auth_reply cookie (λ id. next (some id)) w

  unfoldable pub serve : Route → Option Text → World → Reply × World
  unfolding through handle access_of
  serve route cookie w = through (access_of route) cookie (λ i. handle route cookie (carrying i)) w
