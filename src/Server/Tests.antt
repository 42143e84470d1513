-- ===== src/Server/Tests.antt =====
-- The server process at concrete inputs.
use mathlib.Core.List.{Memᴰ, append-nil}
use billiards_online.Base.{
  ℕ, ◌≡◌, ◌⊎◌, refl, sym, true, false, none, some, [], Text, pos, codes, byte_len, ok, arith,
}
use billiards_online.Logging.{Logger, info, json_handler}
use billiards_online.Security.Tests.{toy}
use billiards_online.Config.Tests.{loaded}
use billiards_online.Auth.Model.{Identity}
use billiards_online.Auth.Http as Auth
use billiards_online.Auth.Tests.{house, at_house, a_token}
use billiards_online.Auth.Access.{Opens}
use billiards_online.Auth.Service.{authenticate}
use billiards_online.Users.Editing.{OthersAsBefore}
use billiards_online.Rooms.Listing.{Codec}
use billiards_online.Rooms.Http.{parse_digits}
use billiards_online.Schema.{Session}
use billiards_online.Server.Refused.{starts, answered_by, Succeeds, SameLobby, serve-SameLobby}
use billiards_online.Rooms.Tests.{hall}
use billiards_online.Rooms.Http as Rooms
use billiards_online.Rooms.Http.{with_user, with_room, write_start_error}
use billiards_online.Rooms.Start as Start
use billiards_online.Rooms.Start.{start_in_tx}
use billiards_online.Rooms.Model.{is_open, capacity}
use billiards_online.Rooms.Repository.{select_room_for_update, select_members}
use billiards_online.Rooms.Statements.{q_room, q_members_by_room}
use billiards_online.Auth.Service.{resolve, renew}
use billiards_online.Auth.Repository.{select_live_session}
use billiards_online.Auth.Statements.{q_live_session_by_token}
use billiards_online.Auth.Middleware.{require_auth, identify}
use billiards_online.Security.Token.{hash_token}
use billiards_online.Http.{answer}
use billiards_online.Base.{find, text_eq, sort, select, any, subst}
use billiards_online.Server.Routes.{rooms_reply, through, access_of, sent, user_id}
use billiards_online.Postgres.{World, ◌>>=◌, query, time_now, in_tx}
use billiards_online.Postgres.Connect.{Driver}
use billiards_online.Server.Middleware.{Deps, Exchange, returned, panicked, Handler, chain}
use billiards_online.Server.Headers.{Promises}
use billiards_online.Server.Recovering.{Respects}
use billiards_online.Server.Finishing.{IsFinished, chain-IsFinished}
use billiards_online.Server.Routes.{
  Reply, Route, me, update_me, auth_reply, handle, carrying, serve,
}
use billiards_online.Server.Guarding.{serve-required}
use billiards_online.Server.OwnProfile.{serve-OthersAsBefore}
use billiards_online.Server.Internal.{itoa, itoa-parse_digits}
use billiards_online.Server.Process.{Surroundings, public, failed}

-- A clock that always writes the same 25 characters; bodies are numbers.
abbrev deps : Deps ℕ
deps = record {
  format_time = λ t. codes "20060102T150405.000000000";
  default = record { level = info; handler = json_handler; attrs = [] };
  bytes = λ bs. 2;
  internal_error = 500;
}

abbrev plain_logger : Logger
plain_logger = deps.default

-- A handler that panics before it writes.
abbrev boom : Handler ℕ
boom x w = (panicked (codes "boom") x, w)

boom-Respects : Respects deps boom
boom-Respects = record {
  id = λ x w. refl;
  secures = λ x w h. h;
  attrs = λ x w. ([], sym (append-nil _));
}

-- No randomness can be had.
abbrev dry : World
dry = record at_house { env = record at_house.env { random = λ t n. none } }

dry-Promises : Promises deps dry
unfolding byte_len
dry-Promises = record { time = λ t. refl; random = λ bs e. absurd (cc e) }

abbrev fresh : Exchange ℕ
fresh = record {
  request = record {
    method = codes "GET";
    path = codes "/x";
    client_ip = codes "::1";
    request_id = [];
  };
  context = none;
  headers = [];
  status = none;
  bodies = [];
  log = [];
}

chain-IsFinished_example :
    (y : Exchange ℕ) × ((chain deps plain_logger boom fresh dry).0 ≡ returned y)
    × IsFinished plain_logger fresh.request boom y
chain-IsFinished_example =
    chain-IsFinished deps plain_logger boom fresh dry boom-Respects dry-Promises

abbrev no_codec : Codec
no_codec = record {
  base64_encode = λ s. s;
  base64_decode = λ s. none;
  format_time = λ t. [];
  parse_time = λ s. none;
  format_uuid = λ id. [];
  parse_uuid = λ s. none;
}

abbrev asked : Route → Reply × World
asked route = serve toy loaded no_codec (λ s. s) true route (some a_token) at_house

serve-required_example :
    (((asked me).0 ≡ auth_reply Auth.unauthorized) × ((asked me).1.tables ≡ house))
    ⊎ ((token : Text) × (some a_token ≡ some token)
        × (s : Session) × Memᴰ s house.sessions
        × Opens toy token 0 s
        × (i : Identity) × (i.session_id ≡ s.id)
        × (i.user_id ≡ s.user_id)
        × (asked me
            ≡ handle toy loaded no_codec
                (λ s. s)
                true
                me
                (some a_token)
                (carrying (some i))
                (authenticate toy token at_house).1))
serve-required_example =
    serve-required toy loaded no_codec (λ s. s) true me (some a_token) at_house (λ h. h)

serve-OthersAsBefore_example :
    ((asked (update_me none)).1.tables ≡ house)
    ⊎ ((token : Text) × (some a_token ≡ some token)
        × (s : Session) × Memᴰ s house.sessions
        × Opens toy token 0 s
        × OthersAsBefore s.user_id house (asked (update_me none)).1.tables)
serve-OthersAsBefore_example =
    serve-OthersAsBefore toy loaded no_codec (λ s. s) true none (some a_token) at_house

-- The host of an empty room asks for a start.
abbrev at_hall : World
at_hall = record at_house { tables = record house { rooms = hall.rooms } }

start_refused :
    (answered_by toy loaded no_codec (λ s. s) true (some a_token) (some 7) starts at_hall).0
    ≡ rooms_reply (Rooms.reply 409 (Rooms.error_code Rooms.rooms_not_full))
unfolding serve through handle access_of require_auth identify sent user_id authenticate resolve
    select_live_session q_live_session_by_token renew ◌>>=◌ query hash_token find time_now text_eq
    Rooms.start with_user with_room answer Start.start in_tx start_in_tx select_room_for_update
    q_room select_members q_members_by_room sort select is_open capacity write_start_error any
start_refused = refl

serve-SameLobby_example :
    SameLobby at_hall.tables
      (answered_by toy loaded no_codec
        (λ s. s)
        true
        (some a_token)
        (some 7)
        starts
        at_hall).1.tables
serve-SameLobby_example =
    serve-SameLobby toy loaded no_codec (λ s. s) true (some a_token) (some 7) starts at_hall
      (λ h. omega (arith, subst (Succeeds starts) start_refused h))

itoa-parse_digits_example : (t : Text) × (itoa (pos 4096) ≡ some t) × (parse_digits 0 t ≡ some 4096)
itoa-parse_digits_example = itoa-parse_digits 4096 (omega arith)

-- pgx where every URL can be read, every pool made, and no database answers.
abbrev deaf : Driver
deaf = record {
  parse_config = λ u. some (record {
    url = u;
    max_conns = pos 4;
    min_conns = pos 0;
    max_conn_lifetime = pos 0;
    max_conn_idle_time = pos 0;
    connect_timeout = pos 0;
  });
  new_with_config = λ c. true;
  ping = λ c timeout. false;
}

-- The public listener fails, with the database at hand.
abbrev broken : Surroundings
broken = record {
  loaded = ok loaded;
  driver = record deaf { ping = λ c timeout. true };
  ending = failed public;
  public_stops = true;
  internal_stops = false;
}
